-- ===== src/Proxy/Tunnel.antt =====
-- src/proxy.rs: `ProxyStream`, the stream of an open tunnel, in both directions.
use nyasniproxy.Base.{
  ℕ, List, [], ◌∷◌, ◌++◌, Bytes, ◌≡◌, refl, sym, ap, ◌∙◌, append_assoc, append-nil, drop,
}
use nyasniproxy.Base.Stream.{Outcome, done, received}
use nyasniproxy.Proxy.Wire.{delivered, taken, write_some-output, write_all-output}
use nyasniproxy.Proxy.Prefixed.{PrefixedStream, pending, poll_read-pending, poll_read-output}
use nyasniproxy.Proxy.Prefixed

pub data ProxyStream : Type 0 where
  plain tls_stream : PrefixedStream → ProxyStream

abbrev pub inner : ProxyStream → PrefixedStream
inner (plain p) = p
inner (tls_stream p) = p

in_plain : {A : Type 0} → Outcome A × PrefixedStream → Outcome A × ProxyStream
in_plain (r, p) = (r, plain p)

in_tls : {A : Type 0} → Outcome A × PrefixedStream → Outcome A × ProxyStream
in_tls (r, p) = (r, tls_stream p)

unfoldable pub poll_read : ℕ → ProxyStream → Outcome Bytes × ProxyStream
unfolding in_plain in_tls
poll_read n (plain p) = in_plain (Prefixed.poll_read n p)
poll_read n (tls_stream p) = in_tls (Prefixed.poll_read n p)

unfoldable pub poll_write : Bytes → ProxyStream → Outcome ℕ × ProxyStream
unfolding in_plain in_tls
poll_write buf (plain p) = in_plain (Prefixed.poll_write buf p)
poll_write buf (tls_stream p) = in_tls (Prefixed.poll_write buf p)

unfoldable pub poll_flush : ProxyStream → Outcome (Unit {0}) × ProxyStream
unfolding in_plain in_tls
poll_flush (plain p) = in_plain (Prefixed.poll_flush p)
poll_flush (tls_stream p) = in_tls (Prefixed.poll_flush p)

unfoldable pub poll_shutdown : ProxyStream → Outcome (Unit {0}) × ProxyStream
unfolding in_plain in_tls
poll_shutdown (plain p) = in_plain (Prefixed.poll_shutdown p)
poll_shutdown (tls_stream p) = in_tls (Prefixed.poll_shutdown p)

-- `AsyncWriteExt::write_all`.
unfoldable pub write_all : Bytes → ProxyStream → Outcome (Unit {0}) × ProxyStream
unfolding in_plain in_tls
write_all s (plain p) = in_plain (Prefixed.write_all s p)
write_all s (tls_stream p) = in_tls (Prefixed.write_all s p)

-- A use of the stream: a read into a buffer with some room, a write of a buffer, a flush, a
-- shutdown.
pub data Use : Type 0 where
  read : ℕ → Use
  write : Bytes → Use
  flush shutdown : Use

-- The bytes read and written, and the stream afterwards.
pub record Done : Type 0 where
  pub got_bytes : Bytes
  pub put_bytes : Bytes
  pub after : ProxyStream

unfoldable pub apply : Use → ProxyStream → Done
apply (read n) s =
    let (r, s') = poll_read n s in record { got_bytes = delivered r; put_bytes = []; after = s' }
apply (write buf) s =
    let (r, s') = poll_write buf s in record { got_bytes = []; put_bytes = taken r buf; after = s' }
apply flush s = record { got_bytes = []; put_bytes = []; after = (poll_flush s).1 }
apply shutdown s = record { got_bytes = []; put_bytes = []; after = (poll_shutdown s).1 }

unfoldable pub apply_all : List Use → ProxyStream → Done
unfolding apply
apply_all [] s = record { got_bytes = []; put_bytes = []; after = s }
apply_all (u ∷ us) s =
    let first = apply u s in
    let later = apply_all us first.after in
    record {
      got_bytes = first.got_bytes ++ later.got_bytes;
      put_bytes = first.put_bytes ++ later.put_bytes;
      after = later.after;
    }

abbrev pub output : ProxyStream → Bytes
output s = (inner s).stream.output

-- Both directions are kept: what was read is the front of what was pending, and what was written
-- stands behind what had been written.
pub record IsDuplex (s : ProxyStream) (d : Done) : Type 0 where
  pub read_front : d.got_bytes ++ pending (inner d.after) ≡ pending (inner s)
  pub written_behind : output d.after ≡ output s ++ d.put_bytes

poll_write-pending :
    (buf : Bytes) (p : PrefixedStream) → pending (Prefixed.poll_write buf p).1 ≡ pending p
unfolding Prefixed.poll_write
poll_write-pending buf p =
    ap (λ r. drop p.prefix_offset p.prefix ++ received r) (write_some-output buf p.stream).1

poll_write-output :
    (buf : Bytes) (p : PrefixedStream)
    → (Prefixed.poll_write buf p).1.stream.output
      ≡ p.stream.output ++ taken (Prefixed.poll_write buf p).0 buf
unfolding Prefixed.poll_write
poll_write-output buf p = (write_some-output buf p.stream).0

apply-IsDuplex : (u : Use) (s : ProxyStream) → IsDuplex s (apply u s)
unfolding apply poll_read poll_write poll_flush poll_shutdown Prefixed.poll_flush
    Prefixed.poll_shutdown
apply-IsDuplex (read n) (plain p) = record {
  read_front = poll_read-pending n p;
  written_behind = poll_read-output n p ∙ sym (append-nil p.stream.output);
}
apply-IsDuplex (read n) (tls_stream p) = record {
  read_front = poll_read-pending n p;
  written_behind = poll_read-output n p ∙ sym (append-nil p.stream.output);
}
apply-IsDuplex (write buf) (plain p) = record {
  read_front = poll_write-pending buf p;
  written_behind = poll_write-output buf p;
}
apply-IsDuplex (write buf) (tls_stream p) = record {
  read_front = poll_write-pending buf p;
  written_behind = poll_write-output buf p;
}
apply-IsDuplex flush (plain p) = record {
  read_front = refl;
  written_behind = sym (append-nil p.stream.output);
}
apply-IsDuplex flush (tls_stream p) = record {
  read_front = refl;
  written_behind = sym (append-nil p.stream.output);
}
apply-IsDuplex shutdown (plain p) = record {
  read_front = refl;
  written_behind = sym (append-nil p.stream.output);
}
apply-IsDuplex shutdown (tls_stream p) = record {
  read_front = refl;
  written_behind = sym (append-nil p.stream.output);
}

-- However reads, writes, flushes and shutdowns of a tunnel interleave, the bytes read are a front
-- of what was pending, first the prefix and then the stream, and exactly the rest stays pending;
-- and the bytes that the writes report as taken stand behind those written before, in order.
pub apply_all-IsDuplex : (us : List Use) (s : ProxyStream) → IsDuplex s (apply_all us s)
unfolding apply_all
apply_all-IsDuplex [] s = record { read_front = refl; written_behind = sym (append-nil (output s)) }
apply_all-IsDuplex (u ∷ us) s =
    let first = apply-IsDuplex u s in
    let later = apply_all-IsDuplex us (apply u s).after in
    record {
      read_front =
          append_assoc (apply u s).got_bytes _ _
          ∙ ap (◌++◌ (apply u s).got_bytes) later.read_front
          ∙ first.read_front;
      written_behind =
          later.written_behind
          ∙ ap (λ o. o ++ (apply_all us (apply u s).after).put_bytes) first.written_behind
          ∙ append_assoc (output s) (apply u s).put_bytes _;
    }

write_all_below :
    (s : Bytes) (p : PrefixedStream) {u : Unit {0}}
    → (Prefixed.write_all s p).0 ≡ done u
    → ((Prefixed.write_all s p).1.stream.output ≡ p.stream.output ++ s)
      × (pending (Prefixed.write_all s p).1 ≡ pending p)
unfolding Prefixed.write_all
write_all_below s p e =
    let (out, reads) = write_all-output s p.stream e in
    (out, ap (λ r. drop p.prefix_offset p.prefix ++ received r) reads)

-- A `write_all` that succeeds has written the whole text, and takes nothing from what is pending.
pub write_all-done :
    (s : Bytes) (t : ProxyStream) {u : Unit {0}}
    → (write_all s t).0 ≡ done u
    → (output (write_all s t).1 ≡ output t ++ s)
      × (pending (inner (write_all s t).1) ≡ pending (inner t))
unfolding write_all
write_all-done s (plain p) e = write_all_below s p e
write_all-done s (tls_stream p) e = write_all_below s p e
