-- ===== src/Lizard/Bounds/Sizes.antt =====
-- The sizes of rows that are cut, filled, blanked and written by LizardShell.py.
use os_lockdown.Base.{
  ℕ, zero, suc, ◌+◌, ◌-◌, ◌≤◌, ◌<◌, ◌≡◌, refl, sym, ap, ◌∙◌, subst, some, List, [], ◌∷◌, map, arith,
  length, All, All-append, take, replicate, length-append, length-take, length-replicate, get_elem?,
  get_elem?_lt, length-set, All-set, All-get_elem?,
}
use os_lockdown.Base.Outcome.{
  Outcome, ok, ◌>>=◌, or_raise, Holds, Holds->>=, Holds-map, Holds-or_raise,
}
use os_lockdown.Base.Ints.{ℤ, pos, negsuc, py_index, update_at, item}
use os_lockdown.Lizard.State.{
  Cell, Rows, Screen, Error, index_error, new_default_char, blank_row, new_screen, fit_row,
  fit_rows,
}
use os_lockdown.Lizard.Escape.{put_cell, blank_cells}
use os_lockdown.Lizard.Bounds.{IsSized, IsWithin, IsRow, IsValueError}

length-map {ℓ κ} :
    {A : Type ℓ} {B : Type κ} (f : A → B) (xs : List A) → length (map f xs) ≡ length xs
length-map f [] = refl
length-map f (x ∷ xs) = ap suc (length-map f xs)

All-map {ℓ κ ι} :
    {A : Type ℓ} {B : Type κ} (P : B → Type ι) (f : A → B) (xs : List A)
    → ((a : A) → P (f a))
    → All P (map f xs)
All-map P f [] h = tt
All-map P f (x ∷ xs) h = (h x, All-map P f xs h)

All-replicate {ℓ κ} : {A : Type ℓ} (P : A → Type κ) (n : ℕ) (a : A) → P a → All P (replicate n a)
All-replicate P zero a h = tt
All-replicate P (suc n) a h = (h, All-replicate P n a h)

length-fit_row : (width : ℕ) (row : List Cell) → length (fit_row width row) ≡ width
unfolding fit_row
length-fit_row width row = omega (
  arith,
  length-append (take width row) (replicate (width - length row) new_default_char),
  length-take width row,
  length-replicate (width - length row) new_default_char,
)

-- Whatever rows there are, the screen has its size once it is redrawn.
pub fit_rows-IsSized :
    (width height : ℕ) (rows : Rows) → IsSized width height (fit_rows width height rows)
unfolding fit_rows
fit_rows-IsSized width height rows =
    let kept = map (fit_row width) (take height rows) in
    let more = replicate (height - length kept) (blank_row width) in
    record {
      row_count = omega (
        arith,
        length-append kept more,
        length-map (fit_row width) (take height rows),
        length-take height rows,
        length-replicate (height - length kept) (blank_row width),
      );
      row_length =
          All-append _ kept more
            (All-map _ (fit_row width) (take height rows) (length-fit_row width))
            (All-replicate _ (height - length kept) (blank_row width)
              (length-replicate width new_default_char));
    }

pub new_screen-IsSized : (v : Screen) → IsSized v.width v.height (new_screen v)
new_screen-IsSized v = record {
  row_count = length-replicate v.height (blank_row v.width);
  row_length =
      All-replicate _ v.height (blank_row v.width) (length-replicate v.width new_default_char);
}

-- An index that finds an element.
pub record IsIndex (n : ℕ) (i : ℤ) : Type 0 where
  pub place : ℕ
  pub found : py_index n i ≡ some place
  pub inside : place < n

pub within-IsIndex : (n : ℕ) (i : ℤ) → IsWithin n i → IsIndex n i
within-IsIndex n (pos i) h = record { place = i; found = ground (arith, h); inside = h }
within-IsIndex n (negsuc i) h = absurd h

pub row-IsIndex : (n : ℕ) (i : ℤ) → 0 < n → IsRow n i → IsIndex n i
row-IsIndex n (pos i) large h = record { place = i; found = ground (arith, h); inside = h }
row-IsIndex n (negsuc i) large h = record {
  place = n - suc i;
  found = ground (arith, h, large);
  inside = omega (arith, h, large);
}

-- An element is there to be read.
pub Holds-item {ℓ κ} :
    {A : Type ℓ} {B : Type κ} (P : A → Type 0) (R : B → Type 0) (xs : List A) (i : ℤ)
    (next : A → Outcome Error B)
    → IsIndex (length xs) i
    → All P xs
    → ((a : A) → P a → Holds IsValueError R (next a))
    → Holds IsValueError R (item index_error xs i >>= next)
Holds-item P R xs i next index all_ then_ =
    let (a, at) = get_elem?_lt xs index.place index.inside in
    subst
      (λ o.
        Holds IsValueError R
          ((or_raise index_error o >>= λ j. or_raise index_error (get_elem? xs j)) >>= next))
      (sym index.found)
      (Holds-or_raise IsValueError R index_error (get_elem? xs index.place) a next at
        (then_ a (All-get_elem? P xs index.place a all_ at)))

-- An element is written.
pub Holds-update_at {ℓ} :
    {A : Type ℓ} (P : A → Type 0) (f : A → Outcome Error A) (xs : List A) (i : ℤ)
    → IsIndex (length xs) i
    → All P xs
    → ((a : A) → P a → Holds IsValueError P (f a))
    → Holds IsValueError (λ ys. (length ys ≡ length xs) × All P ys) (update_at index_error i f xs)
Holds-update_at P f xs i index all_ then_ =
    let (a, at) = get_elem?_lt xs index.place index.inside in
    Holds-or_raise IsValueError _ index_error (py_index (length xs) i) index.place _ index.found (
      Holds-or_raise IsValueError _ index_error (get_elem? xs index.place) a _ at (
        Holds->>= IsValueError P _ (f a) _ (then_ a (All-get_elem? P xs index.place a all_ at))
          (λ b h. (length-set xs index.place b, All-set P xs index.place b all_ h))))

-- A row is written by one of the same length.
pub update_row-IsSized :
    (width height : ℕ) (f : List Cell → Outcome Error (List Cell)) (rows : Rows) (y : ℤ)
    → IsSized width height rows
    → 0 < height
    → IsRow height y
    → ((row : List Cell) → length row ≡ width → Holds IsValueError (λ r. length r ≡ width) (f row))
    → Holds IsValueError (IsSized width height) (update_at index_error y f rows)
update_row-IsSized width height f rows y sized large on_row keeps =
    let index =
      row-IsIndex (length rows) y (omega (arith, large, sized.row_count))
        (subst (λ n. IsRow n y) (sym sized.row_count) on_row) in
    Holds-map IsValueError _ _ (update_at index_error y f rows)
      (Holds-update_at (λ row. length row ≡ width) f rows y index sized.row_length keeps)
      (λ new h. record { row_count = h.0 ∙ sized.row_count; row_length = h.1 })

pub put_cell-IsSized :
    (width height : ℕ) (f : Cell → Cell) (rows : Rows) (x y : ℤ)
    → IsSized width height rows
    → 0 < height
    → IsWithin width x
    → IsRow height y
    → Holds IsValueError (IsSized width height) (put_cell x y f rows)
put_cell-IsSized width height f rows x y sized large x_bound y_bound =
    update_row-IsSized width height _ rows y sized large y_bound λ row same.
      let index = within-IsIndex (length row) x (subst (λ n. IsWithin n x) (sym same) x_bound) in
      Holds-map IsValueError (λ cs. (length cs ≡ length row) × All (λ c. Unit {0}) cs) _
        (update_at index_error x (λ c. ok (f c)) row)
        (Holds-update_at (λ c. Unit {0}) (λ c. ok (f c)) row x index (trivial row) (λ a h. tt))
        (λ new h. h.0 ∙ same)
  where
    trivial : (cs : List Cell) → All (λ c. Unit {0}) cs
    trivial [] = tt
    trivial (c ∷ cs) = (tt, trivial cs)

pub blank_cells-IsSized :
    (width height n x : ℕ) (rows : Rows) (y : ℤ)
    → IsSized width height rows
    → 0 < height
    → x + n ≤ width
    → IsRow height y
    → Holds IsValueError (IsSized width height) (blank_cells n (pos x) y rows)
unfolding blank_cells
blank_cells-IsSized width height zero x rows y sized large x_bound y_bound = sized
blank_cells-IsSized width height (suc n) x rows y sized large x_bound y_bound =
    Holds->>= IsValueError (IsSized width height) _ (put_cell (pos x) y _ rows) _
      (put_cell-IsSized width height _ rows (pos x) y sized large (omega (arith, x_bound)) y_bound)
      (λ blanked h.
        blank_cells-IsSized width height n (x + 1) blanked y h large (omega (arith, x_bound))
          y_bound)
