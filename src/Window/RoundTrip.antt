-- ===== src/Window/RoundTrip.antt =====
-- A window that is closed is opened again where it was.
use sshpad.Prelude.{
  true, Option, some, List, [], ◌∷◌, ◌++◌, ◌≡◌, refl, ◌∙◌, arith, Bytes, ℤ, pos, codes,
  if◌then◌else◌, ap,
}
use sshpad.Text.{is_digit, skip_space, print_int}
use sshpad.Text.Decimal.{InInt, Stops, scan_int-print_int_signed}
use sshpad.Window.{
  Geom, Piece, text, blank, number, fscanf, geom_format, at_least, with_size, with_pos, load_geom,
  geom_text, save_geom,
}

fscanf-number :
    (ps : List Piece) (v : ℤ) (rest : Bytes)
    → InInt v
    → Stops rest
    → fscanf (number ∷ ps) (print_int v ++ rest) ≡ v ∷ fscanf ps rest
unfolding fscanf
fscanf-number ps v rest small stops = rw (fscanf, scan_int-print_int_signed v rest small stops) refl

-- One field of the file: the number, and the blank and the name of the next one.
fscanf-field :
    (name : Bytes) (ps : List Piece) (v : ℤ) (rest : Bytes)
    → InInt v
    → fscanf (blank ∷ text name ∷ ps) (32 ∷ (name ++ rest)) ≡ fscanf ps rest
    → fscanf (number ∷ blank ∷ text name ∷ ps) (print_int v ++ (32 ∷ (name ++ rest)))
      ≡ v ∷ fscanf ps rest
unfolding is_digit
fscanf-field name ps v rest small next =
    fscanf-number (blank ∷ text name ∷ ps) v (32 ∷ (name ++ rest)) small refl ∙ ap (◌∷◌ v) next

fscanf-geom_text :
    (w h px py : ℤ)
    → InInt w
    → InInt h
    → InInt px
    → InInt py
    → fscanf geom_format (geom_text w h px py) ≡ w ∷ h ∷ px ∷ py ∷ []
unfolding fscanf geom_text is_digit skip_space
fscanf-geom_text w h px py iw ih ix iy =
    let y_left : Bytes = print_int py ++ codes "\n" in
    let x_left : Bytes = print_int px ++ (codes " y=" ++ y_left) in
    let h_left : Bytes = print_int h ++ (codes " x=" ++ x_left) in
    let y_pieces : List Piece = number ∷ [] in
    let x_pieces : List Piece = number ∷ blank ∷ text (codes "y=") ∷ y_pieces in
    let h_pieces : List Piece = number ∷ blank ∷ text (codes "x=") ∷ x_pieces in
    fscanf-field (codes "height=") h_pieces w h_left iw refl
    ∙ ap (◌∷◌ w) (
        fscanf-field (codes "x=") x_pieces h x_left ih refl
        ∙ ap (◌∷◌ h) (
            fscanf-field (codes "y=") y_pieces px y_left ix refl
            ∙ ap (◌∷◌ px) (fscanf-number [] py (codes "\n") iy refl)))

-- What the next start makes of the size and the place at the end.
unfoldable pub reopened : ℤ → ℤ → ℤ × ℤ → Geom
reopened w h at = record {
  width = if at_least 200 w then w else pos 960;
  height = if at_least 200 w then h else pos 680;
  x = at.0;
  y = at.1;
  has_pos = true;
}

load-geom_text :
    (w h px py : ℤ)
    → at_least 100 h ≡ true
    → fscanf geom_format (geom_text w h px py) ≡ w ∷ h ∷ px ∷ py ∷ []
    → load_geom (some (geom_text w h px py)) ≡ reopened w h (px, py)
unfolding load_geom with_size with_pos reopened
load-geom_text w h px py high e = rw (e, high) (ground arith)

-- A window of at least 100 by 100 that is closed leaves a file from which the next start takes its
-- place, and its size too if it is at least 200 wide: a narrower one comes back in the default size.
-- The numbers are of the type `int`; the file could be opened.
pub load_geom-save_geom :
    (w h px py : ℤ) (old : Option Bytes)
    → InInt w
    → InInt h
    → InInt px
    → InInt py
    → at_least 100 w ≡ true
    → at_least 100 h ≡ true
    → load_geom (save_geom true w h (some (px, py)) old) ≡ reopened w h (px, py)
unfolding save_geom
load_geom-save_geom w h px py old iw ih ix iy wide high =
    rw (wide, high) (load-geom_text w h px py high (fscanf-geom_text w h px py iw ih ix iy))
