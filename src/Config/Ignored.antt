-- ===== src/Config/Ignored.antt =====
-- src/config.rs: `warn_ignored_runtime_changes`, the settings that a reload does not apply.
use nyasniproxy.Base.{
  Bool, true, false, not, ◌&&◌, List, [], ◌∷◌, ◌++◌, Option, none, some, ◌≡◌, refl, ap, ◌∙◌, arith,
  ◌==◌, ==_iff, if◌then◌else◌, bytes_eq, bytes_eq_iff, append-nil,
}
use nyasniproxy.Config.{
  Ip, v4, v6, HostsSetting, disabled, path, FileConfig, CliOverrides, merge_settings,
}

-- The settings of the warnings.
pub data Setting : Type 0 where
  listen http hosts refresh : Setting

-- `PartialEq` of the optional settings.
abbrev pub option_eq {ℓ} : {A : Type ℓ} → (A → A → Bool) → Option A → Option A → Bool
option_eq eq none none = true
option_eq eq (some a) (some b) = eq a b
option_eq eq _ _ = false

abbrev pub ip_eq : Ip → Ip → Bool
ip_eq (v4 a b c d) (v4 w x y z) = a == w && b == x && c == y && d == z
ip_eq (v6 a) (v6 b) = a == b
ip_eq _ _ = false

abbrev pub hosts_eq : HostsSetting → HostsSetting → Bool
hosts_eq disabled disabled = true
hosts_eq (path p) (path q) = bytes_eq p q
hosts_eq _ _ = false

abbrev pub bool_eq : Bool → Bool → Bool
bool_eq true b = b
bool_eq false b = not b

abbrev pub warn_unless : Bool → Setting → List Setting
warn_unless same setting = if same then [] else setting ∷ []

-- The warnings, in their order.
unfoldable pub warn_ignored_runtime_changes : FileConfig → FileConfig → List Setting
warn_ignored_runtime_changes prev next =
    warn_unless (option_eq ip_eq prev.listen next.listen) listen
    ++ (warn_unless (option_eq bool_eq prev.http next.http) http
        ++ (warn_unless (option_eq hosts_eq prev.hosts next.hosts) hosts
            ++ warn_unless (option_eq ◌==◌ prev.refresh next.refresh) refresh))

option_eq-same :
    {A : Type 0} (eq : A → A → Bool) (a b : Option A)
    → ((x y : A) → eq x y ≡ true → x ≡ y)
    → option_eq eq a b ≡ true
    → a ≡ b
option_eq-same eq none none h e = refl
option_eq-same eq none (some b) h e = cc
option_eq-same eq (some a) none h e = cc
option_eq-same eq (some a) (some b) h e = ap some (h a b e)

ip_eq-same : (a b : Ip) → ip_eq a b ≡ true → a ≡ b
ip_eq-same (v4 a b c d) (v4 w x y z) e = ground arith
ip_eq-same (v4 a b c d) (v6 w) e = cc
ip_eq-same (v6 a) (v4 w x y z) e = cc
ip_eq-same (v6 a) (v6 b) e = ap v6 ((==_iff a b).0 e)

hosts_eq-same : (a b : HostsSetting) → hosts_eq a b ≡ true → a ≡ b
hosts_eq-same disabled disabled e = refl
hosts_eq-same disabled (path q) e = cc
hosts_eq-same (path p) disabled e = cc
hosts_eq-same (path p) (path q) e = ap path ((bytes_eq_iff p q).0 e)

bool_eq-same : (a b : Bool) → bool_eq a b ≡ true → a ≡ b
bool_eq-same true true e = refl
bool_eq-same true false e = cc
bool_eq-same false true e = cc
bool_eq-same false false e = refl

no_warning :
    (b : Bool) (s : Setting) (rest : List Setting)
    → warn_unless b s ++ rest ≡ []
    → (b ≡ true) × (rest ≡ [])
no_warning true s rest e = (refl, e)
no_warning false s rest e = cc

-- Two configurations between which nothing is warned merge with a command line to the same settings,
-- or the same refusal.
pub warn_ignored_runtime_changes-merge_settings :
    (prev next : FileConfig) (cli : CliOverrides)
    → warn_ignored_runtime_changes prev next ≡ []
    → merge_settings prev cli ≡ merge_settings next cli
unfolding warn_ignored_runtime_changes merge_settings
warn_ignored_runtime_changes-merge_settings prev next cli e =
    let (l, e1) = no_warning _ _ _ e in
    let (h, e2) = no_warning _ _ _ e1 in
    let (f, e3) = no_warning _ _ _ e2 in
    let (r, e4) =
      no_warning (option_eq ◌==◌ prev.refresh next.refresh) refresh [] (append-nil _ ∙ e3) in
    rw
      (
        option_eq-same ip_eq prev.listen next.listen ip_eq-same l,
        option_eq-same bool_eq prev.http next.http bool_eq-same h,
        option_eq-same hosts_eq prev.hosts next.hosts hosts_eq-same f,
        option_eq-same ◌==◌ prev.refresh next.refresh (λ x y. (==_iff x y).0) r,
      )
      refl
