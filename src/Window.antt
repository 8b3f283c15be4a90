-- ===== src/Window.antt =====
-- src/window_state.c: the size and the place of the window, as text in a file. What the window and
-- the X server say is an argument.
pub mod RoundTrip
use sshpad.Prelude.{
  ℕ, Bool, true, false, not, ◌&&◌, ◌||◌, Option, none, some, List, [], ◌∷◌, ◌++◌, ◌==◌, leb,
  if◌then◌else◌, Bytes, ℤ, pos, negsuc, cat, codes, take,
}
use sshpad.Text.{skip_space, scan_int, print_int, find_last}
use sshpad.Config.Host.{copy}
use sshpad.Environment.{Environment, non_empty}

-- geom_t
pub record Geom : Type 0 where
  pub width : ℤ
  pub height : ℤ
  pub x : ℤ
  pub y : ℤ
  pub has_pos : Bool

unfoldable pub config_path : Environment → Bytes
unfolding non_empty
config_path env = elim (non_empty (env (codes "XDG_CONFIG_HOME"))) [
  | some dir ↦ copy 512 (dir ++ codes "/sshpad/window.conf")
  | none ↦ elim (non_empty (env (codes "HOME"))) [
    | some dir ↦ copy 512 (dir ++ codes "/.config/sshpad/window.conf")
    | none ↦ codes "/tmp/sshpad-window.conf"
  ]
]

-- The directory that ensure_config_dir passes to mkdir.
unfoldable pub config_dir : Environment → Option Bytes
unfolding config_path find_last
config_dir env = elim (find_last b'/' (config_path env)) [
  | none ↦ none
  | some i ↦ some (take i (config_path env))
]

-- The directives of a format of fscanf: a text, white space, and `%d`.
pub data Piece : Type 0 where
  text : Bytes → Piece
  blank number : Piece

unfoldable pub match_text : Bytes → Bytes → Option Bytes
match_text [] s = some s
match_text (c ∷ cs) [] = none
match_text (c ∷ cs) (x ∷ xs) = if c == x then match_text cs xs else none

-- The numbers that fscanf stores; their count is its result, where it is not EOF.
unfoldable pub fscanf : List Piece → Bytes → List ℤ
unfolding match_text skip_space scan_int
fscanf [] s = []
fscanf (text t ∷ ps) s = elim (match_text t s) [ none ↦ [] | some rest ↦ fscanf ps rest ]
fscanf (blank ∷ ps) s = fscanf ps (skip_space s)
fscanf (number ∷ ps) s = elim (scan_int s) [ none ↦ [] | some (v, rest) ↦ v ∷ fscanf ps rest ]

-- "width=%d height=%d x=%d y=%d"
abbrev pub geom_format : List Piece
geom_format =
    text (codes "width=")
    ∷ number
    ∷ blank
    ∷ text (codes "height=")
    ∷ number
    ∷ blank
    ∷ text (codes "x=")
    ∷ number
    ∷ blank
    ∷ text (codes "y=")
    ∷ number
    ∷ []

abbrev pub default_geom : Geom
default_geom = record { width = pos 960; height = pos 680; x = pos 0; y = pos 0; has_pos = false }

abbrev pub at_least : ℕ → ℤ → Bool
at_least n (pos m) = leb n m
at_least n (negsuc m) = false

-- `n >= 2 && w >= 200 && h >= 100`
unfoldable pub with_size : List ℤ → Geom → Geom
with_size (w ∷ h ∷ rest) g =
    if at_least 200 w && at_least 100 h then record g { width = w; height = h } else g
with_size _ g = g

-- `n == 4`
unfoldable pub with_pos : List ℤ → Geom → Geom
with_pos (w ∷ h ∷ px ∷ py ∷ []) g = record g { x = px; y = py; has_pos = true }
with_pos _ g = g

-- The content of the file, none if it cannot be opened.
unfoldable pub load_geom : Option Bytes → Geom
unfolding fscanf with_size with_pos
load_geom none = default_geom
load_geom (some s) = with_pos (fscanf geom_format s) (with_size (fscanf geom_format s) default_geom)

unfoldable pub geom_text : ℤ → ℤ → ℤ → ℤ → Bytes
unfolding print_int
geom_text w h px py = cat (
    codes "width="
    ∷ print_int w
    ∷ codes " height="
    ∷ print_int h
    ∷ codes " x="
    ∷ print_int px
    ∷ codes " y="
    ∷ print_int py
    ∷ codes "\n"
    ∷ [])

-- The place that the X server gives; 0 and 0 on another window system.
abbrev pub place : Option (ℤ × ℤ) → ℤ × ℤ
place none = (pos 0, pos 0)
place (some p) = p

-- save_geom, which on_close_request calls: the content of the file after it. `opened` is whether
-- fopen succeeds.
unfoldable pub save_geom : Bool → ℤ → ℤ → Option (ℤ × ℤ) → Option Bytes → Option Bytes
unfolding geom_text
save_geom opened w h at file =
    if not (at_least 100 w) || not (at_least 100 h)
    then file
    else if opened
    then some (geom_text w h (place at).0 (place at).1)
    else file

-- window_state_load with do_move_x11: the default size of the window, and where it is moved once it
-- is on the screen. `allocated` is whether malloc succeeds, `x11` whether the surface is one of X11.
unfoldable pub window_state_load : Bool → Bool → Option Bytes → (ℤ × ℤ) × Option (ℤ × ℤ)
unfolding load_geom
window_state_load allocated x11 file = (
  ((load_geom file).width, (load_geom file).height),
  if (load_geom file).has_pos && allocated && x11
      then some ((load_geom file).x, (load_geom file).y)
      else none,
)
