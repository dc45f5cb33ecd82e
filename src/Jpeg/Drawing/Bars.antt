-- ===== src/Jpeg/Drawing/Bars.antt =====
-- The loops draw the bar, and the pictures are compressed as drawn.
use c_practice.Base.{
  ℕ, zero, suc, ◌+◌, ◌*◌, ◌≤◌, ◌≡◌, refl, sym, ap, ◌∙◌, [], ◌∷◌, ◌++◌, arith, length, drop,
  replicate, length-append, length-drop, length-replicate,
}
use c_practice.Base.Text.{Text}
use c_practice.Base.Buffer.{overwrite-append, append_assoc, drop-drop, drop-append, replicate-add}
use c_practice.Jpeg.{done}
use c_practice.Jpeg.Drawing.{draw_row, draw_rows, raw_image}

drop-replicate : (m n : ℕ) → drop {A = ℕ} m (replicate (m + n) 0) ≡ replicate n 0
drop-replicate m n =
    ap (drop m) (replicate-add m n 0)
    ∙ ap (λ k. drop {A = ℕ} k (replicate m 0 ++ replicate n 0)) (sym (length-replicate m 0))
    ∙ drop-append (replicate m 0) (replicate n 0)

draw_row-Bar :
    (width i j left : ℕ) (before rest : Text)
    → width * i + j ≡ length before
    → left ≤ length rest
    → draw_row width i j left (before ++ rest)
      ≡ done (before ++ (replicate left 255 ++ drop left rest))
unfolding draw_row
draw_row-Bar width i j zero before rest at fits = refl
draw_row-Bar width i j (suc left) before rest at fits =
    let put = overwrite-append before rest (255 ∷ []) (width * i + j) at (omega arith) in
    let more = length-append before (255 ∷ []) in
    let fewer = length-drop 1 rest in
    rw put (
      ap (draw_row width i (j + 1) left) (sym (append_assoc before (255 ∷ []) (drop 1 rest)))
      ∙ draw_row-Bar width i (j + 1) left (before ++ (255 ∷ [])) (drop 1 rest) (omega arith)
          (omega arith)
      ∙ ap done (
          append_assoc before (255 ∷ []) (replicate left 255 ++ drop left (drop 1 rest))
          ∙ ap (λ r. before ++ (255 ∷ (replicate left 255 ++ r)))
              (drop-drop rest 1 left
                ∙ ap (λ k. drop k rest) (let e : 1 + left ≡ suc left = omega arith in e))))

draw_rows-Bar :
    (width i left : ℕ) (before rest : Text)
    → width * i ≡ length before
    → left * width ≤ length rest
    → draw_rows width i left (before ++ rest)
      ≡ done (before ++ (replicate (left * width) 255 ++ drop (left * width) rest))
unfolding draw_rows
draw_rows-Bar width i zero before rest at fits =
    let none_left : 0 * width ≡ 0 = omega arith in rw none_left refl
draw_rows-Bar width i (suc left) before rest at fits =
    let whites : Text = replicate width 255 in
    let first = draw_row-Bar width i 0 width before rest (omega arith) (omega arith) in
    let more = length-append before whites in
    let wide : length whites ≡ width = length-replicate width 255 in
    let fewer = length-drop width rest in
    let total : suc left * width ≡ width + left * width = omega arith in
    let bar : Text = replicate (left * width) 255 in
    rw (first, total)
      (ap (draw_rows width (i + 1) left) (sym (append_assoc before whites (drop width rest)))
        ∙ draw_rows-Bar width (i + 1) left (before ++ whites) (drop width rest) (omega arith)
            (omega arith)
        ∙ ap done (
            append_assoc before whites (bar ++ drop (left * width) (drop width rest))
            ∙ ap (λ r. before ++ (whites ++ (bar ++ r))) (drop-drop rest width (left * width))
            ∙ ap (λ r. before ++ r)
                (sym (append_assoc whites bar (drop (width + left * width) rest))
                  ∙ ap (λ r. r ++ drop (width + left * width) rest)
                      (sym (replicate-add width (left * width) 255)))))

-- 100 black rows, 200 white ones, and `k` black ones.
unfoldable pub bars : (width k : ℕ) → Text
bars width k = replicate (100 * width) 0 ++ (replicate (200 * width) 255 ++ replicate (k * width) 0)

pub raw_image-bars : (width k : ℕ) → raw_image width (300 + k) 1 ≡ done (bars width k)
unfolding raw_image bars
raw_image-bars width k =
    let all : width * (300 + k) * 1 ≡ 100 * width + (200 * width + k * width) = omega arith in
    let black : Text = replicate (100 * width) 0 in
    let rest : Text = replicate (200 * width + k * width) 0 in
    let above : length black ≡ 100 * width = length-replicate (100 * width) 0 in
    let below : length rest ≡ 200 * width + k * width =
      length-replicate (200 * width + k * width) 0 in
    rw all (
      ap (draw_rows width 100 200) (replicate-add (100 * width) (200 * width + k * width) 0)
      ∙ draw_rows-Bar width 100 200 black rest (omega arith) (omega arith)
      ∙ ap (λ r. done (black ++ (replicate (200 * width) 255 ++ r)))
          (drop-replicate (200 * width) (k * width)))

pub length-bars : (width k : ℕ) → length (bars width k) ≡ (300 + k) * width
unfolding bars
length-bars width k =
    let black : Text = replicate (100 * width) 0 in
    let white : Text = replicate (200 * width) 255 in
    let last : Text = replicate (k * width) 0 in
    let a : length black ≡ 100 * width = length-replicate (100 * width) 0 in
    let b : length white ≡ 200 * width = length-replicate (200 * width) 255 in
    let c : length last ≡ k * width = length-replicate (k * width) 0 in
    length-append black (white ++ last)
    ∙ ap (λ n. length black + n) (length-append white last)
    ∙ omega arith
