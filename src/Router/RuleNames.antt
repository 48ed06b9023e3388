-- ===== src/Router/RuleNames.antt =====
-- src/router.rs: which names the rules give the hosts file, and that their order does not count.
use nyasniproxy.Base.{
  any, ok_same, Bool, true, false, not, ◌&&◌, ◌||◌, List, [], ◌∷◌, ◌++◌, Bytes, ok, ◌≡◌, ◌≢◌, refl,
  sym, ap, subst, ◌∙◌, inl, inr, All, All-imp, Bool-cases, if◌then◌else◌, bail_if, bind-eq-ok,
  bytes_eq, bytes_eq_iff, to_ascii_lowercase, append_assoc, append-nil,
}
use mathlib.Core.Path.{subst₂}
use mathlib.Core.List.{Permᴰ}
use mathlib.Core.List.Permᴰ
use mathlib.Core.List.Permᴰ.{nil, cons, swap, trans}
use nyasniproxy.Target.{is_valid_hostname}
use nyasniproxy.Proxy.{ProxyConfig}
use nyasniproxy.Config.Parse.{is_default}
use nyasniproxy.Router.{Hop, Build, add_host, add_rule, add_rules, empty_build, resolve}
use nyasniproxy.Router.Sorting.{Distinct}
use nyasniproxy.Router.Writes.{rule_key}
use nyasniproxy.Router.Names.{named, IsSeen, add_rule-Names}

-- The keys of the rules but the default.
abbrev pub rule_names : List (Bytes × List Bytes) → List Bytes
rule_names [] = []
rule_names (r ∷ rules) = if is_default r.0 then rule_names rules else r.0 ∷ rule_names rules

rule_names-All :
    (P : Bytes → Type 0) (rules : List (Bytes × List Bytes))
    → All (λ r. P r.0) rules
    → All P (rule_names rules)
rule_names-All P [] h = tt
rule_names-All P (r ∷ rules) h = elim (Bool-cases (is_default r.0)) [
  | inl d ↦ rw d (rule_names-All P rules h.1)
  | inr n ↦ rw n (h.0, rule_names-All P rules h.1)
]

pub rule_names-Distinct :
    (rules : List (Bytes × List Bytes))
    → Distinct rule_key rules
    → Distinct to_ascii_lowercase (rule_names rules)
rule_names-Distinct [] h = tt
rule_names-Distinct (r ∷ rules) h = elim (Bool-cases (is_default r.0)) [
  | inl d ↦ rw d (rule_names-Distinct rules h.1)
  | inr n ↦ rw n (
    rule_names-All (λ k. rule_key r ≢ to_ascii_lowercase k) rules h.0,
    rule_names-Distinct rules h.1,
  )
]

same_list : {xs : List Bytes} (ys : List Bytes) → xs ≡ ys → Permᴰ xs ys
same_list ys e = subst (λ xs. Permᴰ xs ys) (sym e) (Permᴰ.refl ys)

pub rule_names-Permᴰ :
    {rules rules' : List (Bytes × List Bytes)}
    → Permᴰ rules rules'
    → Permᴰ (rule_names rules) (rule_names rules')
rule_names-Permᴰ nil = nil
rule_names-Permᴰ (cons {a} {b} {l₁} {l₂} e d) =
    subst (λ r. Permᴰ (rule_names (a ∷ l₁)) (rule_names (r ∷ l₂))) e
      (elim (Bool-cases (is_default a.0)) [
        | inl t ↦ rw t (rule_names-Permᴰ d)
        | inr f ↦ rw f (cons refl (rule_names-Permᴰ d))
      ])
rule_names-Permᴰ (swap {a} {b} {l = l} e d) =
    subst₂ (λ u v. Permᴰ (rule_names (a ∷ b ∷ l)) (rule_names (u ∷ v ∷ l))) d e
      (elim (Bool-cases (is_default a.0)) [
        | inl t ↦ rw t (Permᴰ.refl _)
        | inr f ↦ elim (Bool-cases (is_default b.0)) [
          | inl t ↦ rw (f, t) (Permᴰ.refl _)
          | inr g ↦ rw (f, g) (swap refl refl)
        ]
      ])
rule_names-Permᴰ (trans d d') = trans (rule_names-Permᴰ d) (rule_names-Permᴰ d')

All-both :
    {A : Type 0} (P Q : A → Type 0) (xs : List A) → All P xs → All Q xs → All (λ x. P x × Q x) xs
All-both P Q [] h k = tt
All-both P Q (x ∷ xs) h k = ((h.0, k.0), All-both P Q xs h.1 k.1)

and_false : (b : Bool) → (b && false) ≡ false
and_false true = refl
and_false false = refl

or_false : (a b : Bool) → a ≡ false → b ≡ false → ((a || false) || b) ≡ false
or_false a b e f = rw (e, f) refl

name_append :
    (b : Bool) (key : Bytes) (names : List Bytes)
    → (if b then [] else key ∷ []) ++ names ≡ (if b then names else key ∷ names)
name_append true key names = refl
name_append false key names = refl

apart_false : (a b : Bytes) → a ≢ b → bytes_eq a b ≡ false
apart_false a b ne = elim (Bool-cases (bytes_eq a b)) [
  | inl t ↦ absurd (ne ((bytes_eq_iff a b).0 t))
  | inr f ↦ f
]

added_name :
    (b : Build) (key : Bytes) (hops : List Hop)
    → any (bytes_eq (to_ascii_lowercase key)) b.seen ≡ false
    → (add_host b key hops).hostnames ≡ b.hostnames ++ (key ∷ [])
unfolding add_host
added_name b key hops fresh = rw fresh refl

module _ (proxies : List (Bytes × ProxyConfig)) where
  -- A rule whose key is not seen yet adds its key.
  add_rule-hostnames :
      (key : Bytes) (names : List Bytes) (b : Build) {b' : Build}
      → IsSeen b
      → named (to_ascii_lowercase key) b.hostnames ≡ false
      → add_rule proxies key names b ≡ ok b'
      → b'.hostnames ≡ b.hostnames ++ rule_names ((key, names) ∷ [])
  unfolding add_rule
  add_rule-hostnames key names b s unseen e = elim (Bool-cases (is_default key)) [
    | inl d ↦
        let (hops, resolved, e1) = bind-eq-ok (resolve proxies names) _ (rw d at e) in
        ap Build.hostnames (sym (ok_same e1)) ∙ rw d (sym (append-nil b.hostnames))
    | inr r ↦
        let (u, valid, e1) = bind-eq-ok (bail_if (not (is_valid_hostname key)) _) _ (rw r at e) in
        let (hops, resolved, e2) = bind-eq-ok (resolve proxies names) _ e1 in
        ap Build.hostnames (sym (ok_same e2))
        ∙ (let fresh : any (bytes_eq (to_ascii_lowercase key)) b.seen ≡ false =
              s.same_names (to_ascii_lowercase key) ∙ unseen in
            rw r (added_name b key hops fresh))
  ]

  add_rules-hostnames :
      (rules : List (Bytes × List Bytes)) (b : Build) {b' : Build}
      → IsSeen b
      → Distinct rule_key rules
      → All (λ r. named (rule_key r) b.hostnames ≡ false) rules
      → add_rules proxies rules b ≡ ok b'
      → b'.hostnames ≡ b.hostnames ++ rule_names rules
  unfolding add_rules
  add_rules-hostnames [] b s d unseen e =
      ap Build.hostnames (sym (ok_same e)) ∙ sym (append-nil b.hostnames)
  add_rules-hostnames ((key, names) ∷ rules) b s d unseen e =
      let (mid, here, rest) = bind-eq-ok (add_rule proxies key names b) _ e in
      let first = add_rule-Names proxies key names b s here in
      let still : All (λ r. named (rule_key r) mid.hostnames ≡ false) rules =
        All-imp
          (λ r p.
            first.named_is (rule_key r)
            ∙ or_false (not (is_default key) && bytes_eq (to_ascii_lowercase key) (rule_key r)) _
                (rw (apart_false (to_ascii_lowercase key) (rule_key r) p.0)
                  (and_false (not (is_default key))))
                p.1)
          rules (All-both _ _ rules d.0 unseen.1) in
      add_rules-hostnames rules mid first.seen_is d.1 still rest
      ∙ ap (λ l. l ++ rule_names rules) (add_rule-hostnames key names b s unseen.0 here)
      ∙ append_assoc b.hostnames _ _
      ∙ ap (◌++◌ b.hostnames) (name_append (is_default key) key (rule_names rules))

no_names : (rules : List (Bytes × List Bytes)) → All (λ r. named (rule_key r) [] ≡ false) rules
no_names [] = tt
no_names (r ∷ rules) = (refl, no_names rules)

-- The names that a configuration gives the hosts file.
pub build-hostnames :
    (proxies : List (Bytes × ProxyConfig)) (rules : List (Bytes × List Bytes)) {b : Build}
    → Distinct rule_key rules
    → add_rules proxies rules empty_build ≡ ok b
    → b.hostnames ≡ rule_names rules
build-hostnames proxies rules d e =
    add_rules-hostnames proxies rules empty_build
      (record { same_names = λ host. refl; distinct = tt }) d (no_names rules) e
