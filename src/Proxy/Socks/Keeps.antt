-- ===== src/Proxy/Socks/Keeps.antt =====
-- src/proxy.rs: what `socks5_connect` reads and writes, however it ends.
use nyasniproxy.Base.{
  ℕ, ◌+◌, not, ◌||◌, [], ◌∷◌, Option, none, some, Bytes, ltb, ◌==◌, length, bytes_eq,
}
use nyasniproxy.Target.{Target}
use nyasniproxy.Proxy.{ProxyConfig, password_text}
use nyasniproxy.Proxy.Conn.{
  Keeps, Keeps-pure, Keeps-fail, Keeps-write_all, Keeps-read_exact, Keeps-bind, Keeps-if,
}
use nyasniproxy.Proxy.Socks.{
  authenticate, selected_method, negotiate, send_request, one_byte, address_length, reply_head,
  socks5_connect,
}

authenticate-Keeps : (u p : Bytes) → Keeps (authenticate u p)
unfolding authenticate
authenticate-Keeps u p = Keeps-if (ltb 255 (length u) || ltb 255 (length p)) (Keeps-fail _) (
    Keeps-bind (Keeps-write_all _) (λ _.
      Keeps-bind (Keeps-read_exact 2)
        (λ s. Keeps-if (bytes_eq s (1 ∷ 0 ∷ [])) (Keeps-pure tt) (Keeps-fail _))))

selected_method-Keeps : (u p s : Bytes) → Keeps (selected_method u p s)
unfolding selected_method
selected_method-Keeps u p s = Keeps-if (bytes_eq s (5 ∷ 2 ∷ [])) (authenticate-Keeps u p) (
    Keeps-if (bytes_eq s (5 ∷ 0 ∷ [])) (Keeps-pure tt)
      (Keeps-if (bytes_eq s (5 ∷ 255 ∷ [])) (Keeps-fail _) (Keeps-fail _)))

negotiate-Keeps : (u : Option Bytes) (p : Bytes) → Keeps (negotiate u p)
unfolding negotiate
negotiate-Keeps (some u) p =
    Keeps-bind (Keeps-write_all _)
      (λ _. Keeps-bind (Keeps-read_exact 2) (selected_method-Keeps u p))
negotiate-Keeps none p = Keeps-bind (Keeps-write_all _) (λ _.
    Keeps-bind (Keeps-read_exact 2)
      (λ s. Keeps-if (bytes_eq s (5 ∷ 0 ∷ [])) (Keeps-pure tt) (Keeps-fail _)))

send_request-Keeps : (t : Target) → Keeps (send_request t)
unfolding send_request
send_request-Keeps t = Keeps-if (ltb 255 (length t.host)) (Keeps-fail _) (Keeps-write_all _)

one_byte-Keeps : (s : Bytes) → Keeps (one_byte s)
unfolding one_byte
one_byte-Keeps (n ∷ s) = Keeps-pure n
one_byte-Keeps [] = Keeps-fail _

address_length-Keeps : (atyp : ℕ) → Keeps (address_length atyp)
unfolding address_length
address_length-Keeps atyp = Keeps-if (atyp == 1) (Keeps-pure 4) (
    Keeps-if (atyp == 3) (Keeps-bind (Keeps-read_exact 1) one_byte-Keeps)
      (Keeps-if (atyp == 4) (Keeps-pure 16) (Keeps-fail _)))

reply_head-Keeps : (s : Bytes) → Keeps (reply_head s)
unfolding reply_head
reply_head-Keeps (version ∷ code ∷ reserved ∷ atyp ∷ s) =
    Keeps-if (not (version == 5)) (Keeps-fail _)
      (Keeps-if (not (code == 0)) (Keeps-fail _) (address_length-Keeps atyp))
reply_head-Keeps _ = Keeps-fail _

-- However the handshake ends, the bytes that it leaves for the tunnel are those that it has not
-- read, in order and without loss, and what was written before is not changed.
pub socks5_connect-Keeps : (cfg : ProxyConfig) (t : Target) → Keeps (socks5_connect cfg t)
unfolding socks5_connect
socks5_connect-Keeps cfg t = Keeps-bind (negotiate-Keeps cfg.username (password_text cfg)) (λ _.
    Keeps-bind (send_request-Keeps t) (λ _. Keeps-bind (Keeps-read_exact 4) (λ head.
      Keeps-bind (reply_head-Keeps head)
        (λ n. Keeps-bind (Keeps-read_exact (n + 2)) (λ _. Keeps-pure tt)))))
