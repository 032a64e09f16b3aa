-- ===== src/RaftLog/Epoch/Prefixes.antt =====
-- Prefixes of the leader's log, and rule 3 of `HandleAppendEntries` (internal/consensus/consensus.go) on
-- them.
use ensemble_chat.Common.{
  ℕ, zero, suc, ◌+◌, ◌<◌, ◌≡◌, ◌⊎◌, inl, inr, refl, sym, ap, ◌∙◌, pos, some, some_inj, List, [],
  ◌∷◌, ◌++◌, length, get_elem?, take, drop, arith, length-take, take-take_of_le,
}
use ensemble_chat.Types.{LogEntry}
use ensemble_chat.RaftLog.{merge}
pub use ensemble_chat.RaftLog.Merge.{get_elem?-take_below, get_elem?-length}
use ensemble_chat.RaftLog.Merge.{Matching, merge_skip}

pub get_elem?-last {ℓ} :
    {A : Type ℓ} (xs : List A) (y x : A) (i : ℕ)
    → get_elem? (xs ++ y ∷ []) i ≡ some x
    → (get_elem? xs i ≡ some x) ⊎ ((i ≡ length xs) × (x ≡ y))
get_elem?-last [] y x zero h = inr (refl, sym (some_inj h))
get_elem?-last [] y x (suc i) h = absurd (cc)
get_elem?-last (z ∷ xs) y x zero h = inl h
get_elem?-last (z ∷ xs) y x (suc i) h = elim (get_elem?-last xs y x i h) [
  | inl g ↦ inl g
  | inr (e, g) ↦ inr (ap suc e, g)
]

-- Prefixes of one log match.
pub take-Matching : (j m : ℕ) (xs : List LogEntry) → Matching (take j xs) (take m xs)
take-Matching j m xs i x y g g' e =
    let a = get_elem?-length (take j xs) i x g in
    let b = get_elem?-length (take m xs) i y g' in
    take-take_of_le (suc i) j xs (omega (arith, a, length-take j xs))
    ∙ sym (take-take_of_le (suc i) m xs (omega (arith, b, length-take m xs)))

pub Matching-take_right : (m : ℕ) (xs ys : List LogEntry) → Matching xs ys → Matching xs (take m ys)
Matching-take_right m xs ys h i x y g g' e =
    let b = get_elem?-length (take m ys) i y g' in
    let l : i < m = omega (arith, b, length-take m ys) in
    h i x y g (sym (get_elem?-take_below m ys i l) ∙ g') e ∙ sym (take-take_of_le (suc i) m ys l)

pub get_elem?-drop {ℓ} :
    {A : Type ℓ} (k : ℕ) (xs : List A) (i : ℕ) → get_elem? (drop k xs) i ≡ get_elem? xs (k + i)
get_elem?-drop zero xs i = ap (get_elem? xs) (omega arith)
get_elem?-drop (suc k) [] i = refl
get_elem?-drop (suc k) (x ∷ xs) i =
    get_elem?-drop k xs i ∙ ap (get_elem? (x ∷ xs)) {x = suc (k + i)} {y = suc k + i} (omega arith)

-- A log that has the new entries already stays as it is.
pub merge_unchanged :
    (log : List LogEntry) (k : ℕ) (entries : List LogEntry)
    → ((i : ℕ) (x : LogEntry) → get_elem? entries i ≡ some x → get_elem? log (k + i) ≡ some x)
    → merge log (pos k) entries ≡ some log
unfolding merge
merge_unchanged log k [] h = refl
merge_unchanged log k (entry ∷ entries) h =
    let there : get_elem? log k ≡ some entry = ap (get_elem? log) (omega arith) ∙ h 0 entry refl in
    merge_skip log k entry entry entries (get_elem?-length log k entry there) there refl
    ∙ merge_unchanged log (k + 1) entries
        (λ i x g. ap (get_elem? log) (omega arith) ∙ h (suc i) x g)
