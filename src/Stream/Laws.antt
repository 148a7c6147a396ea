-- ===== src/Stream/Laws.antt =====
-- What a reader of a stream gets.
use solvela_go.Base.{
  Bytes, ℕ, ◌+◌, ◌≡◌, refl, ap, ◌⊎◌, inl, inr, Bool, true, false, Option, none, some, List, [], ◌∷◌,
  ◌++◌, ◌==◌, bytes_eq, Bool-cases, codes, map, ◌≢◌, arith,
}
use solvela_go.Errors.{Error, Result, ok, err}
use solvela_go.Types.Chat.{ChatChunk}
use solvela_go.Library.{Library}
use solvela_go.Stream.{
  ChatChunkOrError, chunk, failed, last_item, hand_over, on_line, at_end, read_lines, forward,
  data_of,
}

-- One list of items starts another.
pub record Starts (xs ys : List ChatChunkOrError) : Type 0 where
  pub rest : List ChatChunkOrError
  pub splits : ys ≡ xs ++ rest

Starts-cons :
    (x : ChatChunkOrError) {xs ys : List ChatChunkOrError} → Starts xs ys → Starts (x ∷ xs) (x ∷ ys)
Starts-cons x s = record { rest = s.rest; splits = ap (λ l. x ∷ l) s.splits }

Starts-refl : (xs : List ChatChunkOrError) → Starts xs xs
Starts-refl [] = record { rest = []; splits = refl }
Starts-refl (x ∷ xs) = Starts-cons x (Starts-refl xs)

Starts-nil : (ys : List ChatChunkOrError) → Starts [] ys
Starts-nil ys = record { rest = ys; splits = refl }

-- The context is never done.
abbrev pub always : ℕ → Bool
always n = true

-- Whatever the caller's context does, the goroutine in between hands on a beginning of what it
-- receives, and all of it unless it does not report the end of the stream.
pub forward-Starts :
    (alive taken : ℕ → Bool) (n : ℕ) (items : List ChatChunkOrError)
    → Starts (forward alive taken n items).0 items
      × (((forward alive taken n items).1 ≡ false) ⊎ ((forward alive taken n items).0 ≡ items))
unfolding forward
forward-Starts alive taken n [] = elim (Bool-cases (alive n)) [
  | inl on ↦ rw (on, forward) (Starts-nil [], inr refl)
  | inr off ↦ rw (off, forward) (Starts-nil [], inl refl)
]
forward-Starts alive taken n (x ∷ items) =
    let (starts, all) = forward-Starts alive taken (n + 1) items in
    elim (Bool-cases (alive n)) [
      | inr off ↦ rw (off, forward) (Starts-nil (x ∷ items), inl refl)
      | inl on ↦ elim (Bool-cases (taken n)) [
        | inr lost ↦ rw (on, lost, forward) (Starts-nil (x ∷ items), inl refl)
        | inl kept ↦
            rw (on, kept, forward)
              (
                Starts-cons x starts,
                elim all [ inl left ↦ inl left | inr whole ↦ inr (ap (λ l. x ∷ l) whole) ],
              )
      ]
    ]

differs : (s t : Bytes) → s ≢ t → (s == t) ≡ false
differs s t apart = ground arith

module _ (lib : Library) where
  -- Lines of a stream and the chunks that they carry: up to the line that ends it each line is one
  -- of data that holds a chunk, or no line of data.
  pub data Carries : List Bytes → List ChatChunk → Type 0 where
    done :
        (line : Bytes) (lines : List Bytes)
        → data_of lib line ≡ some (codes "[DONE]")
        → Carries (line ∷ lines) []
    skip :
        (line : Bytes) (lines : List Bytes) (chunks : List ChatChunk)
        → data_of lib line ≡ none
        → Carries lines chunks
        → Carries (line ∷ lines) chunks
    next :
        (line text : Bytes) (lines : List Bytes) (c : ChatChunk) (chunks : List ChatChunk)
        → data_of lib line ≡ some text
        → text ≢ codes "[DONE]"
        → lib.decode_chunk text ≡ ok c
        → Carries lines chunks
        → Carries (line ∷ lines) (c ∷ chunks)

  -- A reader that stays gets exactly the chunks that the lines carry, in their order, whatever stands
  -- behind the line that ends the stream, and no error.
  pub read_lines-Carries :
      {lines : List Bytes} {chunks : List ChatChunk} (n : ℕ) (fault : Option Bytes)
      → Carries lines chunks
      → read_lines lib always always n lines fault ≡ map chunk chunks
  unfolding read_lines on_line hand_over
  read_lines-Carries n fault (done line lines last) = rw last (ground arith)
  read_lines-Carries n fault (skip line lines chunks other more) =
      rw other (read_lines-Carries (n + 1) fault more)
  read_lines-Carries n fault (next line text lines c chunks data_line open_still decoded more) =
      rw (data_line, differs text (codes "[DONE]") open_still, decoded)
        (ap (λ l. chunk c ∷ l) (read_lines-Carries (n + 1) fault more))

module _ (lib : Library) (alive taken : ℕ → Bool) where
  last_item-Starts : (n : ℕ) (e : Error) → Starts (last_item lib alive taken n e) (failed e ∷ [])
  unfolding last_item
  last_item-Starts n e = elim (Bool-cases (taken n)) [
    | inl on ↦ rw on (Starts-refl (failed e ∷ []))
    | inr off ↦ rw off (Starts-nil (failed e ∷ []))
  ]

  hand_over-Starts :
      (n : ℕ) (rest full : List ChatChunkOrError) (r : Result ChatChunk)
      → Starts rest full
      → Starts (hand_over lib alive taken n rest r) (hand_over lib always always n full r)
  unfolding hand_over last_item
  hand_over-Starts n rest full (err e) s = last_item-Starts n e
  hand_over-Starts n rest full (ok c) s = elim (Bool-cases (taken n)) [
    | inl on ↦ rw on (Starts-cons (chunk c) s)
    | inr off ↦ rw off (Starts-nil _)
  ]

  on_line-Starts :
      (n : ℕ) (rest full : List ChatChunkOrError) (text : Option Bytes)
      → Starts rest full
      → Starts (on_line lib alive taken n rest text) (on_line lib always always n full text)
  unfolding on_line
  on_line-Starts n rest full none s = s
  on_line-Starts n rest full (some text) s = elim (Bool-cases (text == codes "[DONE]")) [
    | inl over ↦ rw over (Starts-nil _)
    | inr more ↦ rw more (hand_over-Starts n rest full (lib.decode_chunk text) s)
  ]

  at_end-Starts :
      (n : ℕ) (fault : Option Bytes)
      → Starts (at_end lib alive taken n fault) (at_end lib always always n fault)
  unfolding at_end last_item
  at_end-Starts n none = Starts-nil []
  at_end-Starts n (some why) = elim (Bool-cases (alive n)) [
    | inl on ↦ rw on (last_item-Starts n _)
    | inr off ↦ rw off (Starts-nil _)
  ]

  -- Whenever the context is cancelled, what was delivered is a beginning of what the whole stream
  -- delivers to a reader that stays.
  pub read_lines-Starts :
      (n : ℕ) (lines : List Bytes) (fault : Option Bytes)
      → Starts
          (read_lines lib alive taken n lines fault)
          (read_lines lib always always n lines fault)
  unfolding read_lines
  read_lines-Starts n [] fault = at_end-Starts n fault
  read_lines-Starts n (line ∷ lines) fault = elim (Bool-cases (alive n)) [
    | inl on ↦
        rw on (on_line-Starts n _ _ (data_of lib line) (read_lines-Starts (n + 1) lines fault))
    | inr off ↦ rw off (Starts-nil _)
  ]
