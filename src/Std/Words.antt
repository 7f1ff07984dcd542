-- ===== src/Std/Words.antt =====
-- `stream >> word` of a text stream: the words that blanks separate.
use kvm_cloud.Base.{
  ℕ, true, false, ap, ◌∙◌, append-nil, append_assoc, All, ◌≡◌, refl, List, [], ◌∷◌, ◌++◌, Bytes,
  codes, if◌then◌else◌,
}
use kvm_cloud.Std.Number.{is_space}

-- the word that is complete at a blank or at the end
abbrev closed : Bytes → List Bytes → List Bytes
closed [] rest = rest
closed (c ∷ word) rest = (c ∷ word) ∷ rest

-- with the bytes of the current word
split_words : Bytes → Bytes → List Bytes
split_words word [] = closed word []
split_words word (c ∷ s) =
    let next = closed word (split_words [] s) in
    let more = split_words (word ++ c ∷ []) s in if is_space c then next else more

-- The words of a text, in order.
unfoldable pub words : Bytes → List Bytes
unfolding split_words
words s = split_words [] s

words_test :
    words (codes " s1\t127.0.0.1:8051\ns2 ") ≡ codes "s1" ∷ codes "127.0.0.1:8051" ∷ codes "s2" ∷ []
unfolding words
words_test = refl

-- A byte that a word can hold.
abbrev pub IsSolid : ℕ → Type 0
IsSolid c = is_space c ≡ false

-- A word: at least one byte, and none of them a blank.
abbrev pub IsWord : Bytes → Type 0
IsWord [] = ⊥
IsWord (c ∷ w) = All IsSolid (c ∷ w)

split_words-word :
    (word w : Bytes) (c : ℕ) (s : Bytes)
    → All IsSolid w
    → is_space c ≡ true
    → split_words word (w ++ c ∷ s) ≡ closed (word ++ w) (split_words [] s)
unfolding split_words
split_words-word word [] c s a blank = rw (append-nil, blank)
split_words-word word (d ∷ w) c s a blank = rw (a.0) (
    split_words-word (word ++ d ∷ []) w c s a.1 blank
    ∙ ap (λ v. closed v (split_words [] s)) (append_assoc word (d ∷ []) w))

-- The first word ends at a blank.
pub words-word :
    (w : Bytes) (c : ℕ) (s : Bytes)
    → IsWord w
    → is_space c ≡ true
    → words (w ++ c ∷ s) ≡ w ∷ words s
unfolding words
words-word [] c s h blank = absurd h
words-word (d ∷ w) c s h blank = split_words-word [] (d ∷ w) c s h blank
