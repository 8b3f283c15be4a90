-- ===== src/Startup/Snap.antt =====
-- What sanitize_snap_env makes of each variable.
use sshpad.Prelude.{
  Bool, true, false, not, ◌&&◌, ◌||◌, Option, none, some, List, [], ◌∷◌, ◌≡◌, refl, sym, ap, ◌∙◌,
  ap, ap₂, subst, inl, inr, arith, Bytes, codes, str_eq, str_eq_iff, str_eq_refl, if◌then◌else◌,
  Bool-cases,
}
use sshpad.Config.Host.{copy}
use sshpad.Environment.{Environment, setenv, unsetenv}
use sshpad.Startup.{in_snap, snap_vars, orig_key, put_back, restore, restore_all, sanitize_snap_env}

unfoldable listed : Bytes → List Bytes → Bool
listed x [] = false
listed x (v ∷ vs) = str_eq v x || listed x vs

unfoldable no_repeats : List Bytes → Bool
unfolding listed
no_repeats [] = true
no_repeats (v ∷ vs) = not (listed v vs) && no_repeats vs

-- The saved value of none of the variables is one of `all`.
unfoldable saved_apart : List Bytes → List Bytes → Bool
unfolding listed orig_key
saved_apart all [] = true
saved_apart all (v ∷ vs) = not (listed (orig_key v) all) && saved_apart all vs

-- The value that a variable should have: the one that was saved, if it is not empty; without a saved
-- one, its own if that does not point into Snap.
unfoldable pub value_from : Option Bytes → Option Bytes → Option Bytes
value_from (some []) own = none
value_from (some (c ∷ cs)) own = some (c ∷ cs)
value_from none own = if in_snap own then none else own

unfoldable pub wanted : Bytes → Environment → Option Bytes
wanted x env = value_from (env (orig_key x)) (env x)

value_from_again :
    (saved own : Option Bytes) → value_from saved (value_from saved own) ≡ value_from saved own
unfolding value_from
value_from_again (some []) own = refl
value_from_again (some (c ∷ cs)) own = refl
value_from_again none own = elim (Bool-cases (in_snap own)) [
  | inl snap ↦ rw snap (unfold in_snap in refl)
  | inr other ↦ rw (other, other)
]

put_back_other :
    (saved : Option Bytes) (v x : Bytes) (env : Environment)
    → str_eq v x ≡ false
    → put_back saved v env x ≡ env x
unfolding put_back setenv unsetenv
put_back_other (some []) v x env ne = rw ne
put_back_other (some (c ∷ cs)) v x env ne = rw ne
put_back_other none v x env ne = ground arith

restore_other : (v x : Bytes) (env : Environment) → str_eq v x ≡ false → restore v env x ≡ env x
unfolding restore
restore_other v x env ne = put_back_other (env (orig_key v)) v x env ne

put_back_self :
    (saved : Option Bytes) (x : Bytes) (env : Environment)
    → put_back saved x env x ≡ value_from saved (env x)
unfolding put_back setenv unsetenv value_from
put_back_self (some []) x env = rw (str_eq_refl x)
put_back_self (some (c ∷ cs)) x env = rw (str_eq_refl x)
put_back_self none x env = ground (arith, str_eq_refl x)

restore_self : (x : Bytes) (env : Environment) → restore x env x ≡ wanted x env
unfolding restore wanted
restore_self x env = put_back_self (env (orig_key x)) x env

restore_all_other :
    (vs : List Bytes) (x : Bytes) (env : Environment)
    → listed x vs ≡ false
    → restore_all vs env x ≡ env x
unfolding restore_all listed
restore_all_other [] x env out = refl
restore_all_other (v ∷ vs) x env out =
    restore_all_other vs x (restore v env) (ground arith) ∙ restore_other v x env (ground arith)

restore_all-listed :
    (vs : List Bytes) (x : Bytes) (env : Environment)
    → no_repeats vs ≡ true
    → listed x vs ≡ true
    → listed (orig_key x) vs ≡ false
    → restore_all vs env x ≡ wanted x env
unfolding restore_all listed no_repeats wanted
restore_all-listed [] x env once here apart = cc
restore_all-listed (v ∷ vs) x env once here apart = elim (Bool-cases (str_eq v x)) [
  | inl same ↦
      let at : v ≡ x = (str_eq_iff v x).0 same in
      let v_once : listed v vs ≡ false = ground arith in
      restore_all_other vs x (restore v env) (subst (λ y. listed y vs ≡ false) at v_once)
      ∙ subst (λ y. restore y env x ≡ wanted x env) (sym at) (restore_self x env)
  | inr differs ↦
      restore_all-listed vs x (restore v env) (ground arith) (ground arith) (ground arith)
      ∙ ap₂ value_from (restore_other v (orig_key x) env (ground arith))
          (restore_other v x env differs)
]

-- A variable of the table has its saved value outside the table.
listed_apart :
    (all vs : List Bytes) (x : Bytes)
    → saved_apart all vs ≡ true
    → listed x vs ≡ true
    → listed (orig_key x) all ≡ false
unfolding listed saved_apart
listed_apart all [] x apart here = cc
listed_apart all (v ∷ vs) x apart here = elim (Bool-cases (str_eq v x)) [
  | inl same ↦
      let v_apart : listed (orig_key v) all ≡ false = ground arith in
      subst (λ y. listed (orig_key y) all ≡ false) ((str_eq_iff v x).0 same) v_apart
  | inr differs ↦ listed_apart all vs x (ground arith) (ground arith)
]

table_no_repeats : no_repeats snap_vars ≡ true
unfolding no_repeats listed str_eq
table_no_repeats = refl

table_apart : saved_apart snap_vars snap_vars ≡ true
unfolding saved_apart listed str_eq orig_key copy
table_apart = refl

saved_not_listed : (x : Bytes) → listed x snap_vars ≡ true → listed (orig_key x) snap_vars ≡ false
saved_not_listed x here = listed_apart snap_vars snap_vars x table_apart here

unfoldable pub is_clean : Environment → Bool
is_clean env =
    not (in_snap (env (codes "GTK_EXE_PREFIX"))) && not (in_snap (env (codes "LD_LIBRARY_PATH")))

-- What a variable becomes.
unfoldable pub sanitized : Environment → Environment
unfolding is_clean listed wanted
sanitized env x = if is_clean env || not (listed x snap_vars) then env x else wanted x env

restore_all-sanitized :
    (env : Environment) (x : Bytes)
    → restore_all snap_vars env x ≡ (if not (listed x snap_vars) then env x else wanted x env)
restore_all-sanitized env x = elim (Bool-cases (listed x snap_vars)) [
  | inl here ↦
      rw here (restore_all-listed snap_vars x env table_no_repeats here (saved_not_listed x here))
  | inr out ↦ rw out (restore_all_other snap_vars x env out)
]

-- The loop over the variables makes of each what the table says: in an environment where
-- GTK_EXE_PREFIX or LD_LIBRARY_PATH points into Snap, each of the eleven variables gets the value that
-- was saved for it, or is removed if that is empty, or if there is none and its own points into Snap;
-- every other variable, and every other environment, is left as it was.
pub sanitize_snap_env-sanitized :
    (env : Environment) (x : Bytes) → sanitize_snap_env env x ≡ sanitized env x
unfolding sanitize_snap_env sanitized is_clean
sanitize_snap_env-sanitized env x = ground (arith, restore_all-sanitized env x)

restore_all_again :
    (env : Environment) (x : Bytes)
    → restore_all snap_vars (restore_all snap_vars env) x ≡ restore_all snap_vars env x
unfolding wanted
restore_all_again env x = elim (Bool-cases (listed x snap_vars)) [
  | inl here ↦
      let once : restore_all snap_vars env x ≡ wanted x env =
        restore_all-listed snap_vars x env table_no_repeats here (saved_not_listed x here) in
      restore_all-listed snap_vars x (restore_all snap_vars env) table_no_repeats here
        (saved_not_listed x here)
      ∙ ap₂ value_from (restore_all_other snap_vars (orig_key x) env (saved_not_listed x here)) once
      ∙ value_from_again (env (orig_key x)) (env x)
      ∙ sym once
  | inr out ↦ restore_all_other snap_vars x (restore_all snap_vars env) out
]

sanitize_clean : (env : Environment) → is_clean env ≡ true → sanitize_snap_env env ≡ env
unfolding sanitize_snap_env is_clean
sanitize_clean env h = rw h refl

sanitize_dirty :
    (env : Environment) → is_clean env ≡ false → sanitize_snap_env env ≡ restore_all snap_vars env
unfolding sanitize_snap_env is_clean
sanitize_dirty env h = rw h refl

-- A second call of sanitize_snap_env changes nothing.
pub sanitize_snap_env_again :
    (env : Environment) (x : Bytes)
    → sanitize_snap_env (sanitize_snap_env env) x ≡ sanitize_snap_env env x
sanitize_snap_env_again env x = elim (Bool-cases (is_clean env)) [
  | inl clean ↦ ap (λ e. sanitize_snap_env e x) (sanitize_clean env clean)
  | inr dirty ↦ elim (Bool-cases (is_clean (restore_all snap_vars env))) [
    | inl clean ↦ rw (sanitize_dirty env dirty) (ap (λ e. e x) (sanitize_clean _ clean))
    | inr again ↦
        rw (sanitize_dirty env dirty)
          (ap (λ e. e x) (sanitize_dirty _ again) ∙ restore_all_again env x)
  ]
]
