-- ===== src/Router/Writes.antt =====
-- src/router.rs: what `routing_fingerprint` feeds to the hasher determines the sorted maps.
use nyasniproxy.Base.{
  ℕ, List, [], ◌∷◌, ◌++◌, Bytes, ◌≡◌, refl, ap₂, length, to_ascii_lowercase, arith,
}
use nyasniproxy.Config.{FileConfig}
use nyasniproxy.Router.{
  HashWrite, write_str, write_length, proxy_writes, name_writes, rule_writes, sort_by_key,
}
use nyasniproxy.Router.Sorting.{Distinct}

abbrev pub rule_key : Bytes × List Bytes → Bytes
rule_key r = to_ascii_lowercase r.0

abbrev pub proxy_key : Bytes × Bytes → Bytes
proxy_key p = p.0

-- The keys of both maps are distinct, those of the rules in any case.
pub record IsMap (yaml : FileConfig) : Type 0 where
  pub proxy_keys : Distinct proxy_key yaml.proxies
  pub rule_keys : Distinct rule_key yaml.rules

-- What is fed to the hasher.
abbrev pub routing_writes : FileConfig → List HashWrite
routing_writes yaml =
    proxy_writes (sort_by_key proxy_key yaml.proxies)
    ++ rule_writes (sort_by_key rule_key yaml.rules)

-- The rules, with their keys in lower case.
abbrev pub lowered : List (Bytes × List Bytes) → List (Bytes × List Bytes)
lowered [] = []
lowered (r ∷ rules) = (rule_key r, r.1) ∷ lowered rules

write_str_same : {a b : Bytes} → write_str a ≡ write_str b → a ≡ b
write_str_same e = cc

write_length_same : {m n : ℕ} → write_length m ≡ write_length n → m ≡ n
write_length_same e = cc

cons_same : {A : Type 0} {a b : A} {s t : List A} → a ∷ s ≡ b ∷ t → (a ≡ b) × (s ≡ t)
cons_same e = (cc, cc)

name_writes_same :
    (ns ms : List Bytes) {s t : List HashWrite}
    → length ns ≡ length ms
    → name_writes ns s ≡ name_writes ms t
    → (ns ≡ ms) × (s ≡ t)
unfolding name_writes
name_writes_same [] [] l e = (refl, e)
name_writes_same [] (m ∷ ms) l e = absurd (omega (arith, l))
name_writes_same (n ∷ ns) [] l e = absurd (omega (arith, l))
name_writes_same (n ∷ ns) (m ∷ ms) l e =
    let (first, rest) = cons_same e in
    let (ih, tail) = name_writes_same ns ms (omega (arith, l)) rest in
    (ap₂ ◌∷◌ (write_str_same first) ih, tail)

rule_writes_same :
    (rs qs : List (Bytes × List Bytes)) → rule_writes rs ≡ rule_writes qs → lowered rs ≡ lowered qs
unfolding rule_writes
rule_writes_same [] [] e = refl
rule_writes_same [] (q ∷ qs) e = cc
rule_writes_same (r ∷ rs) [] e = cc
rule_writes_same ((k, ns) ∷ rs) ((j, ms) ∷ qs) e =
    let (first, e1) = cons_same e in
    let (second, e2) = cons_same e1 in
    let (names, rest) = name_writes_same ns ms (write_length_same second) e2 in
    ap₂ ◌∷◌ (ap₂ (λ a b. (a, b)) (write_str_same first) names) (rule_writes_same rs qs rest)

-- The writes tell the proxies from the rules: the second write of a rule is a length.
pub writes_same :
    (ps os : List (Bytes × Bytes)) (rs qs : List (Bytes × List Bytes))
    → proxy_writes ps ++ rule_writes rs ≡ proxy_writes os ++ rule_writes qs
    → (ps ≡ os) × (lowered rs ≡ lowered qs)
unfolding proxy_writes rule_writes
writes_same [] [] rs qs e = (refl, rule_writes_same rs qs e)
writes_same [] (o ∷ os) [] qs e = cc
writes_same [] (o ∷ os) (r ∷ rs) qs e = cc
writes_same (p ∷ ps) [] rs [] e = cc
writes_same (p ∷ ps) [] rs (q ∷ qs) e = cc
writes_same ((n, u) ∷ ps) ((m, v) ∷ os) rs qs e =
    let (first, e1) = cons_same e in
    let (second, e2) = cons_same e1 in
    let (proxies, rules) = writes_same ps os rs qs e2 in
    (ap₂ ◌∷◌ (ap₂ (λ a b. (a, b)) (write_str_same first) (write_str_same second)) proxies, rules)
