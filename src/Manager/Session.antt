-- ===== src/Manager/Session.antt =====
-- Passwords: cm_unlock, cm_change_password and the upload of cm_sync.
use sshpad.Prelude.{
  ◌<◌, true, some, [], ◌∷◌, ◌≡◌, refl, ◌≢◌, ap, ◌∙◌, inl, inr, arith, Bytes, length, str_eq,
  str_eq_iff, Option-cases,
}
use sshpad.Crypto.{IsText}
use sshpad.Config.Host.{copy, copy_fits}
use sshpad.R2.{R2Config}
use sshpad.Manager.{
  locked, cloud, Manager, Services, Answers, done, put, sync, unlocked, unlock_locked, unlock,
  change_password,
}

module _ (s : Services) where
  -- What a cloud session uploads opens again: when cm_sync of a manager in mode CLOUD succeeds with
  -- the object `blob`, a locked manager that is given the same password (of less than 256 bytes), and
  -- gets that object back, is unlocked with the uploaded hosts (as their JSON reads back), in mode
  -- CLOUD, with the password, if their JSON form is a C string of less than 2^31 bytes.
  pub sync-unlock :
      (m n : Manager) (a reply : Answers) (cfg : R2Config) (blob : Bytes)
      → m.mode ≡ cloud
      → n.mode ≡ locked
      → length m.password < 256
      → IsText (s.encode m.hosts)
      → sync s m a ≡ (true, put cfg blob ∷ [])
      → reply.status ≡ 200
      → reply.blob ≡ some blob
      → unlock s n m.password reply ≡ record {
        manager = record n {
          hosts = s.decode (s.encode m.hosts);
          mode = cloud;
          password = m.password;
        };
        code = done;
        effects = [];
      }
  unfolding sync unlock unlock_locked unlocked
  sync-unlock m n a reply cfg blob up down short text ok found got =
      elim (Option-cases (s.encrypt m.password (s.encode m.hosts))) [
        | inl failed ↦ absurd (ground arith)
        | inr (sealed, e) ↦
            let same : sealed ≡ blob = ground arith in
            let opens : s.decrypt m.password blob ≡ some (s.encode m.hosts) =
              s.decrypt-encrypt m.password (s.encode m.hosts) blob text (e ∙ ap some same) in
            rw (down, found, got, opens, copy_fits 256 m.password short) refl
      ]

  -- cm_unlock that does not return 0 leaves the manager as it was.
  pub unlock_failed :
      (m : Manager) (password : Bytes) (a : Answers)
      → (unlock s m password a).code ≢ done
      → (unlock s m password a).manager ≡ m
  unfolding unlock unlock_locked
  unlock_failed m password a bad = ground arith

  -- cm_change_password that does not return 0 leaves the manager, its password included, as it was, the
  -- stored password having room in its buffer.
  pub change_password_failed :
      (m : Manager) (old_pw new_pw : Bytes) (a : Answers)
      → length m.password < 256
      → (change_password s m old_pw new_pw a).code ≢ done
      → (change_password s m old_pw new_pw a).manager ≡ m
  unfolding change_password sync
  change_password_failed m old_pw new_pw a short bad =
      let fits : copy 256 m.password ≡ m.password = copy_fits 256 m.password short in
      let twice : copy 256 (copy 256 m.password) ≡ m.password = ap (copy 256) fits ∙ fits in
      ground arith

  -- For a new password of less than 256 bytes, cm_change_password returns 0 only in mode CLOUD and
  -- for the password in use, and then the one object it sends is the hosts encrypted under the new
  -- password, which replaces the old one.
  pub change_password_done :
      (m : Manager) (old_pw new_pw : Bytes) (a : Answers)
      → length new_pw < 256
      → (change_password s m old_pw new_pw a).code ≡ done
      → (m.mode ≡ cloud)
        × (m.password ≡ old_pw)
        × ((blob : Bytes) × (s.encrypt new_pw (s.encode m.hosts) ≡ some blob)
            × ((change_password s m old_pw new_pw a).effects ≡ put m.r2_cfg blob ∷ []))
        × ((change_password s m old_pw new_pw a).manager ≡ record m { password = new_pw })
  unfolding change_password sync
  change_password_done m old_pw new_pw a short ok =
      let fits : copy 256 new_pw ≡ new_pw = copy_fits 256 new_pw short in
      let session : m.mode ≡ cloud = ground arith in
      let known : str_eq m.password old_pw ≡ true = ground arith in
      elim (Option-cases (s.encrypt new_pw (s.encode m.hosts))) [
        | inl failed ↦ absurd (ground arith)
        | inr (blob, e) ↦
            (session, (str_eq_iff m.password old_pw).0 known, (blob, e, ground arith), ground arith)
      ]
