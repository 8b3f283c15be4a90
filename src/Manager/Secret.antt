-- ===== src/Manager/Secret.antt =====
-- The masked secret: what cm_get_r2_config shows, sent back to cm_set_r2_config.
use sshpad.Prelude.{
  ◌<◌, ◌+◌, ◌-◌, Bool, true, false, [], ◌∷◌, ◌++◌, ◌≡◌, refl, ap, ◌∙◌, inl, inr, arith,
  if◌then◌else◌, leb, Bytes, length, take, length-append, drop-length-append, codes, str_eq_refl,
  Bool-cases,
}
use sshpad.Config.Host.{copy, copy_fits}
use sshpad.R2.{R2Config}
use sshpad.Manager.{Manager, Services, Answers}
use sshpad.Manager.Settings.{ends_masked, mask, with_secret, get_r2_config, set_r2_config}

length-take_four : (s : Bytes) → leb 5 (length s) ≡ true → length (take 4 s) ≡ 4
length-take_four [] h = absurd (ground arith)
length-take_four (a ∷ []) h = absurd (ground arith)
length-take_four (a ∷ b ∷ []) h = absurd (ground arith)
length-take_four (a ∷ b ∷ c ∷ []) h = absurd (ground arith)
length-take_four (a ∷ b ∷ c ∷ d ∷ s) h = refl

-- What ends in four stars is taken for a masked secret.
ends_masked-stars : (s : Bytes) → ends_masked (s ++ codes "****") ≡ true
unfolding ends_masked
ends_masked-stars s =
    let four : length (s ++ codes "****") ≡ length s + 4 = length-append s (codes "****") in
    let ends : length s + 4 - 4 ≡ length s = omega arith in
    let fits : leb 4 (length s + 4) ≡ true = ground arith in
    rw (four, fits, ends, drop-length-append s (codes "****"), str_eq_refl (codes "****")) refl

ends_masked-mask : (s : Bytes) → leb 5 (length s) ≡ true → ends_masked (mask s) ≡ true
unfolding mask
ends_masked-mask s h =
    let eight : length (take 4 s ++ codes "****") ≡ 8 =
      length-append (take 4 s) (codes "****") ∙ ap (λ n. n + 4) (length-take_four s h) in
    let fits : copy 256 (take 4 s ++ codes "****") ≡ take 4 s ++ codes "****" =
      copy_fits 256 (take 4 s ++ codes "****") (omega arith) in
    rw (h, fits, fits) (ends_masked-stars (take 4 s))

mask_short : (s : Bytes) → leb 5 (length s) ≡ false → mask s ≡ s
unfolding mask
mask_short s h = rw h refl

keeps :
    (c : R2Config) (masked : Bool)
    → length c.secret_access_key < 256
    → (if masked
        then record c { secret_access_key = copy 256 (copy 256 c.secret_access_key) }
        else record c { secret_access_key = c.secret_access_key })
      ≡ c
keeps c true short =
    rw (copy_fits 256 c.secret_access_key short, copy_fits 256 c.secret_access_key short) refl
keeps c false short = refl

-- A configuration as it is shown stands for the configuration in use.
with_secret-mask :
    (c : R2Config)
    → length c.secret_access_key < 256
    → with_secret c (record c { secret_access_key = mask c.secret_access_key }) ≡ c
unfolding with_secret
with_secret-mask c short = elim (Bool-cases (leb 5 (length c.secret_access_key))) [
  | inl long ↦
      rw
        (
          ends_masked-mask c.secret_access_key long,
          copy_fits 256 c.secret_access_key short,
          copy_fits 256 c.secret_access_key short,
        )
        refl
  | inr plain ↦
      rw (mask_short c.secret_access_key plain) (keeps c (ends_masked c.secret_access_key) short)
]

-- cm_set_r2_config that is given back what cm_get_r2_config shows keeps the configuration in use,
-- its secret (of less than 256 bytes)
-- included, in every mode and whatever the server answers.
pub set_r2_config-get_r2_config :
    (s : Services) (m : Manager) (a : Answers)
    → length m.r2_cfg.secret_access_key < 256
    → (set_r2_config s m (get_r2_config m) a).manager ≡ m
unfolding set_r2_config get_r2_config
set_r2_config-get_r2_config s m a short = rw (with_secret-mask m.r2_cfg short) (ground arith)
