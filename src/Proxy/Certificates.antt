-- ===== src/Proxy/Certificates.antt =====
-- The certificates of src/local_proxy.c: where they are kept and when mkcert is called for them. The
-- files and the programs are arguments.
use sshpad.Prelude.{
  ℕ, Bool, true, false, ◌&&◌, Option, none, some, List, [], ◌∷◌, ◌++◌, ◌≡◌, sym, ap, ◌==◌,
  if◌then◌else◌, Bytes, codes, append_assoc,
}
use sshpad.Config.Host.{copy}
use sshpad.Environment.{Environment, non_empty}

-- What the outside is: the variables; the files that can be read and the directories that can be
-- written; `mkcert -install`, and mkcert with arguments, which succeed or not.
pub record Outside : Type 0 where
  pub env : Environment
  pub readable : Bytes → Bool
  pub writable : Bytes → Bool
  pub installs : Bool
  pub runs_mkcert : List Bytes → Bool

-- lp_check_mkcert: `line` is whether which wrote a line, `status` what pclose gives; none if popen fails.
unfoldable pub lp_check_mkcert : Option (Bool × ℕ) → Bool
lp_check_mkcert none = false
lp_check_mkcert (some (line, status)) = line && status == 0

abbrev under_home : Bytes → Option Bytes → Option Bytes
under_home tail none = none
under_home tail (some home) = some (copy 512 (home ++ (codes "/.local/share" ++ tail)))

abbrev under_data : Bytes → Option Bytes → Option Bytes → Option Bytes
under_data tail (some data_home) home = some (copy 512 (data_home ++ tail))
under_data tail none home = under_home tail home

-- A path below the directory for data.
unfoldable pub data_path : Environment → Bytes → Option Bytes
unfolding non_empty copy
data_path env tail =
    under_data tail (non_empty (env (codes "XDG_DATA_HOME"))) (non_empty (env (codes "HOME")))

abbrev ca_at : Outside → Option Bytes → Bool
ca_at w none = false
ca_at w (some path) = if w.readable path then true else w.installs

-- true is the result 0.
unfoldable pub ensure_mkcert_ca : Outside → Bool
unfolding data_path
ensure_mkcert_ca w = ca_at w (data_path w.env (codes "/mkcert/rootCA.pem"))

-- The loop of mkdirs over what follows the first byte.
unfoldable pub parents : Bytes → Bytes → List Bytes
parents front [] = []
parents front (c ∷ cs) =
    let rest = parents (front ++ c ∷ []) cs in if c == b'/' then front ∷ rest else rest

-- The directories that mkdirs makes, in order, for a path that is not empty.
unfoldable pub mkdirs : Bytes → List Bytes
unfolding parents copy
mkdirs path = elim (copy 512 path) [ [] ↦ [] | c ∷ cs ↦ parents (c ∷ []) cs ++ (c ∷ cs) ∷ [] ]

abbrev dir_at : Outside → Option Bytes → Option Bytes
dir_at w none = none
dir_at w (some dir) = if w.writable dir then some dir else none

-- ensure_cert_dir, after mkdirs: the directory, none for the result -1.
unfoldable pub ensure_cert_dir : Outside → Option Bytes
unfolding data_path
ensure_cert_dir w = dir_at w (data_path w.env (codes "/sshpad/certs"))

unfoldable pub cert_path : Bytes → Bytes → Bytes
unfolding copy
cert_path dir host = copy 512 (dir ++ (b'/' ∷ (host ++ codes ".pem")))

unfoldable pub key_path : Bytes → Bytes → Bytes
unfolding copy
key_path dir host = copy 512 (dir ++ (b'/' ∷ (host ++ codes "-key.pem")))

unfoldable pub mkcert_argv : Bytes → Bytes → List Bytes
unfolding cert_path key_path
mkcert_argv dir host =
    codes "mkcert"
    ∷ codes "-cert-file"
    ∷ cert_path dir host
    ∷ codes "-key-file"
    ∷ key_path dir host
    ∷ host
    ∷ codes "localhost"
    ∷ codes "127.0.0.1"
    ∷ []

unfoldable pub generate_cert : Outside → Bytes → Bytes → Bool
unfolding cert_path key_path mkcert_argv
generate_cert w dir host =
    if w.readable (cert_path dir host) && w.readable (key_path dir host)
    then true
    else w.runs_mkcert (mkcert_argv dir host)

-- The file of the private key of a host is the file of the certificate of the host whose name has "-key"
-- behind it: mkcert for the second one overwrites the key of the first one.
pub key_path-cert_path :
    (dir host : Bytes) → key_path dir host ≡ cert_path dir (host ++ codes "-key")
unfolding key_path cert_path
key_path-cert_path dir host =
    ap (λ x. copy 512 (dir ++ (b'/' ∷ x))) (sym (append_assoc host (codes "-key") (codes ".pem")))
