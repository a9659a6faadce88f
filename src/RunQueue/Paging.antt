-- ===== src/RunQueue/Paging.antt =====
-- history.go: what the pages of a history hold, and for which pages the slice is out of range.
use proof_layer.Base.{
  ℕ, zero, suc, ◌+◌, ◌-◌, ◌*◌, ◌%◌, ◌≤◌, ◌<◌, ◌≡◌, refl, sym, ap, ◌∙◌, List, [], ◌∷◌, none, some,
  arith, length, take, drop, length-drop, dec_lt,
}
use proof_layer.Base.Int.{two_63, two_64, pos, negsuc}
use proof_layer.RunQueue.History.{HistoryItem, page_start, window, page_items}

module _ {ℓ} {A : Type ℓ} where
  pub take_all : (n : ℕ) (xs : List A) → length xs ≤ n → take n xs ≡ xs
  take_all zero [] h = refl
  take_all zero (x ∷ xs) h = absurd (omega arith)
  take_all (suc n) [] h = refl
  take_all (suc n) (x ∷ xs) h = ap (◌∷◌ x) (take_all n xs (omega arith))

  drop_all : (n : ℕ) (xs : List A) → length xs ≤ n → drop n xs ≡ []
  drop_all zero [] h = refl
  drop_all zero (x ∷ xs) h = absurd (omega arith)
  drop_all (suc n) [] h = refl
  drop_all (suc n) (x ∷ xs) h = drop_all n xs (omega arith)

  drop_over : (n m : ℕ) (xs : List A) → length xs ≤ n → length xs ≤ m → drop n xs ≡ drop m xs
  drop_over n m xs h k = drop_all n xs h ∙ sym (drop_all m xs k)

  take_over : (n m : ℕ) (xs : List A) → length xs ≤ n → length xs ≤ m → take n xs ≡ take m xs
  take_over n m xs h k = take_all n xs h ∙ sym (take_all m xs k)

window_inside :
    (k size : ℕ) (items : List HistoryItem)
    → k + size ≤ length items
    → window (pos k) size items ≡ some (take (k + size - k) (drop k items))
unfolding window
window_inside k size items h = ground arith

window_cut :
    (k size : ℕ) (items : List HistoryItem)
    → k ≤ length items
    → length items < k + size
    → window (pos k) size items ≡ some (take (length items - k) (drop k items))
unfolding window
window_cut k size items h l = ground arith

window_past :
    (k size : ℕ) (items : List HistoryItem)
    → length items < k
    → window (pos k) size items
      ≡ some (take (length items - length items) (drop (length items) items))
unfolding window
window_past k size items h = ground arith

window_negative : (k size : ℕ) (items : List HistoryItem) → window (negsuc k) size items ≡ none
unfolding window
window_negative k size items = ground arith

-- A window that starts at a number holds the items from there on.
window_pos :
    (k size : ℕ) (items : List HistoryItem)
    → window (pos k) size items ≡ some (take size (drop k items))
window_pos k size items = elim (dec_lt (length items) k) [
  | yes past ↦
      window_past k size items past
      ∙ ap some (
          take_over _ _ _ (omega (arith, length-drop (length items) items))
            (omega (arith, length-drop (length items) items))
          ∙ ap (take size) (drop_over (length items) k items (omega arith) (omega arith)))
  | no within ↦ elim (dec_lt (length items) (k + size)) [
    | yes cut ↦
        window_cut k size items (omega arith) cut
        ∙ ap some (
            take_over _ _ _ (omega (arith, length-drop k items))
              (omega (arith, length-drop k items)))
    | no inside ↦
        window_inside k size items (omega arith)
        ∙ ap (λ n. some (take n (drop k items))) (omega arith)
  ]
]

page_start_fits :
    (page size : ℕ) → (page - 1) * size < two_63 → page_start page size ≡ pos ((page - 1) * size)
unfolding page_start
page_start_fits page size h = ground arith

page_start_wraps :
    (page size : ℕ)
    → two_63 ≤ (page - 1) * size % two_64
    → (k : ℕ) × (page_start page size ≡ negsuc k)
unfolding page_start
page_start_wraps page size h = (two_64 - (page - 1) * size % two_64 - 1, ground arith)

-- While the product of the page number and the size fits, a page is a window of the items.
pub page_items-window :
    (page size : ℕ) (items : List HistoryItem)
    → (page - 1) * size < two_63
    → page_items page size items ≡ some (take size (drop ((page - 1) * size) items))
unfolding page_items
page_items-window page size items h =
    ap (λ start. window start size items) (page_start_fits page size h)
    ∙ window_pos ((page - 1) * size) size items

-- Where the product wraps to a negative number, the slice is out of range.
pub page_items-overflow :
    (page size : ℕ) (items : List HistoryItem)
    → two_63 ≤ (page - 1) * size % two_64
    → page_items page size items ≡ none
unfolding page_items
page_items-overflow page size items h =
    let (k, e) = page_start_wraps page size h in
    ap (λ start. window start size items) e ∙ window_negative k size items
