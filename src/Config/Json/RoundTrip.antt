-- ===== src/Config/Json/RoundTrip.antt =====
-- The JSON form of the hosts is read back.
use sshpad.Prelude.{
  ℕ, suc, ◌<◌, ◌≤◌, true, some, List, [], ◌∷◌, map, ◌≡◌, refl, ap, ap₂, arith, ℤ, pos, is_zero,
  Bytes, All, length, codes, take_fits, if◌then◌else◌, str_eq,
}
use sshpad.Json.{JsonC, Style, plain, assoc, lacks_key, has_unique_keys}
use sshpad.Config.Host.{
  ForwardRule, DynamicRule, SshHost, Fits, FitsForward, FitsDynamic, copy_fits, max_forwards,
}
use sshpad.Config.Json.{
  forward_json, dynamic_json, port_or_default, host_json, ssh_hosts_to_json, text_member,
  int_member, forward_of_json, dynamic_of_json, rules_member, host_of_json, ssh_hosts_from_json,
}

-- The host without what its JSON form does not hold: the generic options, and a port that was never
-- set.
abbrev pub stored : SshHost → SshHost
stored h = record h { port = if is_zero h.port then pos 22 else h.port; options = [] }

map_fix {ℓ κ} :
    {A : Type ℓ} {B : Type κ} (P : A → Type 0) (f : A → B) (g : B → A) (xs : List A)
    → ((x : A) → P x → g (f x) ≡ x)
    → All P xs
    → map g (map f xs) ≡ xs
map_fix P f g [] h ps = refl
map_fix P f g (x ∷ xs) h ps = ap₂ ◌∷◌ (h x ps.0) (map_fix P f g xs h ps.1)

length-map {ℓ κ} :
    {A : Type ℓ} {B : Type κ} (f : A → B) (xs : List A) → length (map f xs) ≡ length xs
length-map f [] = refl
length-map f (x ∷ xs) = ap suc (length-map f xs)

module _ (c : JsonC) where
  open c use {Json, new_string, new_int, new_array, new_object}

  text_member-new_object :
      (size : ℕ) (ps : List (Bytes × Json)) (key s : Bytes)
      → has_unique_keys ps ≡ true
      → assoc ps key ≡ some (new_string s)
      → length s < size
      → text_member c size (new_object ps) key ≡ s
  unfolding text_member
  text_member-new_object size ps key s u e fits =
      rw (c.object_get_ex-new_object ps key u, e, c.get_string-new_string s) (copy_fits size s fits)

  int_member-new_object :
      (ps : List (Bytes × Json)) (key : Bytes) (n : ℤ)
      → has_unique_keys ps ≡ true
      → assoc ps key ≡ some (new_int n)
      → int_member c (new_object ps) key ≡ n
  unfolding int_member
  int_member-new_object ps key n u e =
      rw (c.object_get_ex-new_object ps key u, e) (c.get_int-new_int n)

  rules_member-new_object {ℓ} :
      {A : Type ℓ} (P : A → Type 0) (write : A → Json) (read : Json → A) (ps : List (Bytes × Json))
      (key : Bytes) (rs : List A)
      → has_unique_keys ps ≡ true
      → assoc ps key ≡ some (new_array (map write rs))
      → length rs ≤ max_forwards
      → ((r : A) → P r → read (write r) ≡ r)
      → All P rs
      → rules_member c read (new_object ps) key ≡ rs
  unfolding rules_member
  rules_member-new_object P write read ps key rs u e few back fit =
      rw
        (
          c.object_get_ex-new_object ps key u,
          e,
          c.elements-new_array (map write rs),
          take_fits max_forwards (map write rs) (omega (arith, length-map write rs)),
        )
        (map_fix P write read rs back fit)

  forward_of_json-forward_json :
      (r : ForwardRule) → FitsForward r → forward_of_json c (forward_json c r) ≡ r
  unfolding forward_of_json forward_json has_unique_keys lacks_key assoc str_eq
  forward_of_json-forward_json r fit =
      rw
        (
          text_member-new_object 64 _ (codes "bindAddr") r.bind_addr refl refl fit.addr_fits,
          int_member-new_object _ (codes "bindPort") r.bind_port refl refl,
          text_member-new_object 256 _ (codes "remoteHost") r.remote_host refl refl fit.host_fits,
          int_member-new_object _ (codes "remotePort") r.remote_port refl refl,
        )
        refl

  dynamic_of_json-dynamic_json :
      (r : DynamicRule) → FitsDynamic r → dynamic_of_json c (dynamic_json c r) ≡ r
  unfolding dynamic_of_json dynamic_json has_unique_keys lacks_key assoc str_eq
  dynamic_of_json-dynamic_json r fit =
      rw
        (
          text_member-new_object 64 _ (codes "bindAddr") r.bind_addr refl refl fit.addr_fits,
          int_member-new_object _ (codes "bindPort") r.bind_port refl refl,
        )
        refl

  -- An object that has the nine members of a host is read as the host, whatever else it has.
  pub host_of_json-new_object :
      (ps : List (Bytes × Json)) (h : SshHost)
      → Fits h
      → has_unique_keys ps ≡ true
      → assoc ps (codes "name") ≡ some (new_string h.name)
      → assoc ps (codes "hostname") ≡ some (new_string h.hostname)
      → assoc ps (codes "user") ≡ some (new_string h.user)
      → assoc ps (codes "port") ≡ some (new_int (port_or_default c h.port))
      → assoc ps (codes "identityFile") ≡ some (new_string h.identity_file)
      → assoc ps (codes "proxyJump") ≡ some (new_string h.proxy_jump)
      → assoc ps (codes "localForward") ≡ some (new_array (map (forward_json c) h.local_forward))
      → assoc ps (codes "remoteForward") ≡ some (new_array (map (forward_json c) h.remote_forward))
      → assoc ps (codes "dynamicForward")
        ≡ some (new_array (map (dynamic_json c) h.dynamic_forward))
      → host_of_json c (new_object ps) ≡ stored h
  unfolding host_of_json
  host_of_json-new_object ps h fit u name hostname user port identity proxy locals remotes
        dynamics =
      rw
        (
          c.object_not_null ps,
          text_member-new_object 128 ps (codes "name") h.name u name fit.name_fits,
          text_member-new_object 256 ps (codes "hostname") h.hostname u hostname fit.hostname_fits,
          text_member-new_object 64 ps (codes "user") h.user u user fit.user_fits,
          int_member-new_object ps (codes "port") (port_or_default c h.port) u port,
          text_member-new_object 512 ps (codes "identityFile") h.identity_file u identity
              fit.identity_fits,
          text_member-new_object 128 ps (codes "proxyJump") h.proxy_jump u proxy fit.proxy_fits,
          rules_member-new_object FitsForward (forward_json c) (forward_of_json c) ps
              (codes "localForward") h.local_forward u locals fit.local_count
              forward_of_json-forward_json fit.local_fit,
          rules_member-new_object FitsForward (forward_json c) (forward_of_json c) ps
              (codes "remoteForward") h.remote_forward u remotes fit.remote_count
              forward_of_json-forward_json fit.remote_fit,
          rules_member-new_object FitsDynamic (dynamic_json c) (dynamic_of_json c) ps
              (codes "dynamicForward") h.dynamic_forward u dynamics fit.dynamic_count
              dynamic_of_json-dynamic_json fit.dynamic_fit,
        )
        refl

  host_of_json-host_json : (h : SshHost) → Fits h → host_of_json c (host_json c h) ≡ stored h
  unfolding host_json has_unique_keys lacks_key assoc str_eq
  host_of_json-host_json h fit =
      host_of_json-new_object _ h fit refl refl refl refl refl refl refl refl refl refl

  All-map {ℓ} :
      {A : Type ℓ} (n : ℕ) (f : A → Json) (xs : List A)
      → ((x : A) → c.IsNested n (f x))
      → All (c.IsNested n) (map f xs)
  All-map n f [] h = tt
  All-map n f (x ∷ xs) h = (h x, All-map n f xs h)

  forward_json-IsNested : (n : ℕ) (r : ForwardRule) → c.IsNested (suc n) (forward_json c r)
  unfolding forward_json
  forward_json-IsNested n r = c.new_object-IsNested n _ (
    c.new_string-IsNested n r.bind_addr,
    (
      c.new_int-IsNested n r.bind_port,
      (c.new_string-IsNested n r.remote_host, (c.new_int-IsNested n r.remote_port, tt)),
    ),
  )

  dynamic_json-IsNested : (n : ℕ) (r : DynamicRule) → c.IsNested (suc n) (dynamic_json c r)
  unfolding dynamic_json
  dynamic_json-IsNested n r =
      c.new_object-IsNested n _
        (c.new_string-IsNested n r.bind_addr, (c.new_int-IsNested n r.bind_port, tt))

  -- The arrays of rules are nested by one more than the rules.
  pub locals-IsNested :
      (n : ℕ) (rs : List ForwardRule)
      → c.IsNested (suc (suc n)) (new_array (map (forward_json c) rs))
  locals-IsNested n rs =
      c.new_array-IsNested _ _ (All-map _ (forward_json c) rs (forward_json-IsNested n))

  pub dynamics-IsNested :
      (n : ℕ) (rs : List DynamicRule)
      → c.IsNested (suc (suc n)) (new_array (map (dynamic_json c) rs))
  dynamics-IsNested n rs =
      c.new_array-IsNested _ _ (All-map _ (dynamic_json c) rs (dynamic_json-IsNested n))

  host_json-IsNested : (n : ℕ) (h : SshHost) → c.IsNested (suc (suc (suc n))) (host_json c h)
  unfolding host_json
  host_json-IsNested n h = c.new_object-IsNested (suc (suc n)) _ (
    c.new_string-IsNested _ h.name,
    (
      c.new_string-IsNested _ h.hostname,
      (
        c.new_string-IsNested _ h.user,
        (
          c.new_int-IsNested _ _,
          (
            c.new_string-IsNested _ h.identity_file,
            (
              c.new_string-IsNested _ h.proxy_jump,
              (
                locals-IsNested n h.local_forward,
                (locals-IsNested n h.remote_forward, (dynamics-IsNested n h.dynamic_forward, tt)),
              ),
            ),
          ),
        ),
      ),
    ),
  )

  -- A list of hosts, each written by a function that host_of_json reads, is read from its text.
  pub ssh_hosts_from_json-new_array :
      (style : Style) (write : SshHost → Json) (hosts : List SshHost)
      → ((h : SshHost) → Fits h → host_of_json c (write h) ≡ stored h)
      → ((h : SshHost) → c.IsNested 30 (write h))
      → All Fits hosts
      → ssh_hosts_from_json c (c.to_json_string style (new_array (map write hosts)))
        ≡ some (map stored hosts)
  unfolding ssh_hosts_from_json
  ssh_hosts_from_json-new_array style write hosts back nested fits =
      rw
        (
          c.tokener_parse-to_json_string style _ (c.array_not_null _)
              (c.new_array-IsNested 30 _ (All-map 30 write hosts nested)),
          c.elements-new_array _,
        )
        (ap some (go hosts fits))
    where
      go : (hs : List SshHost) → All Fits hs → map (host_of_json c) (map write hs) ≡ map stored hs
      go [] fits = refl
      go (h ∷ hs) fits = ap₂ ◌∷◌ (back h fits.0) (go hs fits.1)

  -- The text of ssh_hosts_to_json is read back by ssh_hosts_from_json: the same hosts in the same order
  -- with every field that fits its array, except that the generic options are lost, and that a port
  -- of 0 comes back as 22.
  pub ssh_hosts_from_json-ssh_hosts_to_json :
      (hosts : List SshHost)
      → All Fits hosts
      → ssh_hosts_from_json c (ssh_hosts_to_json c hosts) ≡ some (map stored hosts)
  unfolding ssh_hosts_to_json
  ssh_hosts_from_json-ssh_hosts_to_json hosts fits =
      ssh_hosts_from_json-new_array plain (host_json c) hosts host_of_json-host_json
        (host_json-IsNested 27) fits
