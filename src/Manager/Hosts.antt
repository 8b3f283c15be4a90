-- ===== src/Manager/Hosts.antt =====
-- cm_save_host and cm_delete_host as operations on a map from names to hosts.
use sshpad.Prelude.{
  true, false, Option, none, some, List, [], ◌∷◌, ◌≡◌, refl, sym, ap, ◌∙◌, subst, inl, inr, arith,
  if◌then◌else◌, Bytes, str_eq, str_eq_iff, str_eq_refl, Bool-cases,
}
use sshpad.Config.Host.{SshHost}
use sshpad.Manager.{Manager, Services, Answers, upsert, knows, remove_host, save_host, delete_host}

-- The map: the first host of the name.
unfoldable pub lookup : Bytes → List SshHost → Option SshHost
lookup name [] = none
lookup name (h ∷ hs) = if str_eq h.name name then some h else lookup name hs

-- No two hosts of the list have the same name.
unfoldable pub IsUnique : List SshHost → Type 0
IsUnique [] = Unit
IsUnique (h ∷ hs) = (lookup h.name hs ≡ none) × IsUnique hs

str_eq_trans : (a b c : Bytes) → str_eq a b ≡ true → str_eq a c ≡ str_eq b c
str_eq_trans a b c h = ap (λ x. str_eq x c) ((str_eq_iff a b).0 h)

differs_sym : (a b : Bytes) → str_eq a b ≡ false → str_eq b a ≡ false
differs_sym a b h = elim (Bool-cases (str_eq b a)) [
  | inl same ↦ absurd (cc (h, str_eq_refl a, (str_eq_iff b a).0 same))
  | inr other ↦ other
]

lookup-upsert :
    (host : SshHost) (name : Bytes) (hs : List SshHost)
    → lookup name (upsert host hs) ≡ (if str_eq host.name name then some host else lookup name hs)
unfolding lookup upsert
lookup-upsert host name [] = refl
lookup-upsert host name (h ∷ hs) = elim (Bool-cases (str_eq h.name host.name)) [
  | inl same ↦ elim (Bool-cases (str_eq host.name name)) [
    | inl hit ↦ rw (same, hit) refl
    | inr miss ↦ rw (same, miss, str_eq_trans h.name host.name name same, miss) refl
  ]
  | inr other ↦ elim (Bool-cases (str_eq h.name name)) [
    | inl hit ↦
        let apart : str_eq host.name name ≡ false =
          differs_sym name host.name (sym (str_eq_trans h.name name host.name hit) ∙ other) in
        rw (other, hit, apart) refl
    | inr miss ↦ rw (other, miss) (lookup-upsert host name hs)
  ]
]

lookup-upsert-none :
    (host : SshHost) (name : Bytes) (hs : List SshHost)
    → lookup name hs ≡ none
    → str_eq host.name name ≡ false
    → lookup name (upsert host hs) ≡ none
lookup-upsert-none host name hs e h = lookup-upsert host name hs ∙ (rw h e)

upsert-IsUnique : (host : SshHost) (hs : List SshHost) → IsUnique hs → IsUnique (upsert host hs)
unfolding upsert IsUnique lookup
upsert-IsUnique host [] u = (refl, tt)
upsert-IsUnique host (h ∷ hs) u = elim (Bool-cases (str_eq h.name host.name)) [
  | inl same ↦
      rw same (subst (λ n. lookup n hs ≡ none) ((str_eq_iff h.name host.name).0 same) u.0, u.1)
  | inr other ↦ rw other (
    lookup-upsert-none host h.name hs u.0 (differs_sym h.name host.name other),
    upsert-IsUnique host hs u.1,
  )
]

lookup-remove_other :
    (name other : Bytes) (hs : List SshHost)
    → str_eq name other ≡ false
    → lookup other (remove_host name hs) ≡ lookup other hs
unfolding remove_host lookup
lookup-remove_other name other [] ne = refl
lookup-remove_other name other (h ∷ hs) ne = elim (Bool-cases (str_eq h.name name)) [
  | inl same ↦ rw (same, str_eq_trans h.name name other same, ne) refl
  | inr differs ↦ rw differs (grind (arith, lookup-remove_other name other hs ne))
]

lookup-remove_self :
    (name : Bytes) (hs : List SshHost) → IsUnique hs → lookup name (remove_host name hs) ≡ none
unfolding remove_host lookup IsUnique
lookup-remove_self name [] u = refl
lookup-remove_self name (h ∷ hs) u = elim (Bool-cases (str_eq h.name name)) [
  | inl same ↦ rw same (subst (λ n. lookup n hs ≡ none) ((str_eq_iff h.name name).0 same) u.0)
  | inr differs ↦ rw (differs, differs) (lookup-remove_self name hs u.1)
]

-- After cm_save_host, of hosts with different names, the map has the host under its name and is
-- otherwise the map it was, and the names still differ, whether or not the hosts could be stored.
pub save_host-lookup :
    (s : Services) (m : Manager) (host : SshHost) (a : Answers) (name : Bytes)
    → IsUnique m.hosts
    → IsUnique (save_host s m host a).manager.hosts
      × (lookup name (save_host s m host a).manager.hosts
          ≡ (if str_eq host.name name then some host else lookup name m.hosts))
unfolding save_host
save_host-lookup s m host a name u =
    (upsert-IsUnique host m.hosts u, lookup-upsert host name m.hosts)

remove_host_missing :
    (name : Bytes) (hs : List SshHost) → knows name hs ≡ false → remove_host name hs ≡ hs
unfolding knows remove_host
remove_host_missing name [] h = refl
remove_host_missing name (x ∷ hs) h = ground (arith, remove_host_missing name hs)

delete_host-hosts :
    (s : Services) (m : Manager) (name : Bytes) (a : Answers)
    → (delete_host s m name a).manager.hosts ≡ remove_host name m.hosts
unfolding delete_host
delete_host-hosts s m name a = elim (Bool-cases (knows name m.hosts)) [
  | inl found ↦ rw found refl
  | inr missing ↦ rw missing (sym (remove_host_missing name m.hosts missing))
]

lookup-remove_host :
    (name other : Bytes) (hs : List SshHost)
    → IsUnique hs
    → lookup other (remove_host name hs) ≡ (if str_eq name other then none else lookup other hs)
lookup-remove_host name other hs u = elim (Bool-cases (str_eq name other)) [
  | inl same ↦ rw same (
      subst (λ n. lookup n (remove_host name hs) ≡ none) ((str_eq_iff name other).0 same)
        (lookup-remove_self name hs u))
  | inr differs ↦ rw differs (lookup-remove_other name other hs differs)
]

-- After cm_delete_host, of hosts with different names, the map has no host of the name, and under
-- every other name what it had, whether or not the hosts could be stored.
pub delete_host-lookup :
    (s : Services) (m : Manager) (name other : Bytes) (a : Answers)
    → IsUnique m.hosts
    → lookup other (delete_host s m name a).manager.hosts
      ≡ (if str_eq name other then none else lookup other m.hosts)
delete_host-lookup s m name other a u =
    rw (delete_host-hosts s m name a) (lookup-remove_host name other m.hosts u)
