-- ===== src/Apps/Nano/Editing.antt =====
-- Typing in kernel/apps/nano.cpp: the cursor stands at the end of the text.
use mesa_os.Prelude.{
  ℕ, zero, suc, ◌+◌, ◌-◌, ◌≤◌, ◌<◌, ◌≡◌, ◌≢◌, refl, sym, ap, ap₂, ◌∙◌, Bool, true, false, not, ◌&&◌,
  ◌||◌, Option, List, [], ◌∷◌, ◌++◌, length, arith, ltb, leb, ◌==◌, update, Bool-cases, if_cases,
  if_true, if_false, inl, inr,
}
use mesa_os.Libc.{strlen}
use mesa_os.Libc.Strings.{strlen_lem, text}
use mesa_os.Apps.Nano.{
  Nano, cut_from, cut_line, shift_right, insert_from, paste_line, type_char, upper, plain_input,
  handle_input,
}

pub record IsEditing (n : Nano) : Type 0 where
  pub end : n.buffer n.cursor_pos ≡ 0
  pub full : (i : ℕ) → i < n.cursor_pos → n.buffer i ≢ 0
  pub room : n.cursor_pos ≤ 4095
  pub empty : n.clipboard 0 ≡ 0

shift_right_none : (k : ℕ) (b : ℕ → ℕ) (cursor i : ℕ) → shift_right b cursor 0 k i ≡ b i
unfolding shift_right
shift_right_none zero b cursor i = refl
shift_right_none (suc k) b cursor i =
    let e : cursor + k + 0 ≡ cursor + k = omega arith in
    shift_right_none k (update b (cursor + k + 0) (b (cursor + k))) cursor i
    ∙ elim (Bool-cases (cursor + k + 0 == i)) [
      | inl f ↦ if_true _ _ f ∙ ap b (ground arith)
      | inr f ↦ if_false _ _ f
    ]

-- At the end of the text there is nothing to cut.
cut_from_end :
    (k : ℕ) (b clip : ℕ → ℕ) (cursor i : ℕ)
    → b cursor ≡ 0
    → cut_from b clip cursor i k ≡ (b, clip, i)
unfolding cut_from
cut_from_end zero b clip cursor i e = refl
cut_from_end (suc k) b clip cursor i e =
    let stop : (not (b cursor == 0) && not (b cursor == 10)) ≡ false = ground (arith, e) in
    rw stop refl

module _ (n : Nano) (s : IsEditing n) where
  cut_line_nothing : cut_line n ≡ record n { clipboard = update n.clipboard 0 0 }
  unfolding cut_line
  cut_line_nothing =
      ap (λ (r : (ℕ → ℕ) × (ℕ → ℕ) × ℕ). record n { buffer = r.0; clipboard = update r.1 r.2 0 })
        (cut_from_end 511 n.buffer n.clipboard n.cursor_pos 0 s.end)

  no_clip : strlen n.clipboard 0 ≡ 0
  no_clip =
      strlen_lem n.clipboard 0 0
        (record { chars = λ i h. absurd (omega (arith, h)); end = s.empty; short = omega arith })

  paste_line_nothing :
      ((i : ℕ) → (paste_line n).buffer i ≡ n.buffer i)
      × ((paste_line n).cursor_pos ≡ n.cursor_pos)
      × ((paste_line n).clipboard ≡ n.clipboard)
  unfolding paste_line insert_from
  paste_line_nothing =
      if_cases
        (λ (m : Nano).
          ((i : ℕ) → m.buffer i ≡ n.buffer i)
          × (m.cursor_pos ≡ n.cursor_pos)
          × (m.clipboard ≡ n.clipboard))
        (leb 4095 (n.cursor_pos + strlen n.clipboard 0)) (λ e. (λ i. refl, refl, refl))
        (λ e. rw no_clip (
          λ i. shift_right_none (strlen n.buffer 0 + 1 - n.cursor_pos) n.buffer n.cursor_pos i,
          omega arith,
          refl,
        ))

-- With the cursor at the end of the text and an empty clipboard, `cut_line` takes nothing out of
-- the text and `paste_line` puts nothing in.
pub cut_line-paste_line :
    (n : Nano)
    → IsEditing n
    → ((cut_line n).buffer ≡ n.buffer)
      × ((cut_line n).clipboard 0 ≡ 0)
      × ((i : ℕ) → (paste_line n).buffer i ≡ n.buffer i)
      × ((paste_line n).cursor_pos ≡ n.cursor_pos)
cut_line-paste_line n s =
    let (same, place, clip) = paste_line_nothing n s in
    rw (cut_line_nothing n s) (refl, refl, same, place)

type_char-IsEditing : (n : Nano) (c : ℕ) → IsEditing n → c ≢ 0 → IsEditing (type_char n c)
unfolding type_char
type_char-IsEditing n c s h =
    if_cases IsEditing (c == 8)
      (λ e.
        if_cases IsEditing (ltb 0 n.cursor_pos)
          (λ f. record {
            end = ground arith;
            full = λ i k. ground (arith, s.full i (omega (arith, k)), k);
            room = omega (arith, s.room);
            empty = s.empty;
          })
          (λ f. s))
      (λ e.
        if_cases IsEditing (ltb n.cursor_pos 4095)
          (λ f. record {
            end = ground arith;
            full = λ i k. elim (Bool-cases (ltb i n.cursor_pos)) [
              | inl g ↦ ground (arith, s.full i (ground arith), k)
              | inr g ↦ ground (arith, h, k)
            ];
            room = ground arith;
            empty = s.empty;
          })
          (λ f. s))

cut_line-IsEditing : (n : Nano) → IsEditing n → IsEditing (cut_line n)
cut_line-IsEditing n s =
    rw (cut_line_nothing n s)
      (record { end = s.end; full = s.full; room = s.room; empty = ground arith })

paste_line-IsEditing : (n : Nano) → IsEditing n → IsEditing (paste_line n)
paste_line-IsEditing n s =
    let (same, place, clip) = paste_line_nothing n s in
    record {
      end = ap (paste_line n).buffer place ∙ same n.cursor_pos ∙ s.end;
      full = λ i h e. s.full i (omega (arith, h, place)) (sym (same i) ∙ e);
      room = omega (arith, place, s.room);
      empty = ap (λ (b : ℕ → ℕ). b 0) clip ∙ s.empty;
    }

abbrev pub all_characters : List (Bool × ℕ) → Bool
all_characters [] = true
all_characters ((ctrl, c) ∷ cs) = not (c == 0) && all_characters cs

-- Characters that are neither zero, backspace nor escape.
abbrev pub all_letters : List ℕ → Bool
all_letters [] = true
all_letters (c ∷ t) = not (c == 0) && not (c == 8) && not (c == 27) && all_letters t

pub plain : List ℕ → List (Bool × ℕ)
plain [] = []
plain (c ∷ t) = (false, c) ∷ plain t

text-snoc : (m : ℕ → ℕ) (k s : ℕ) → text m s (suc k) ≡ text m s k ++ (m (s + k) ∷ [])
unfolding text
text-snoc m zero s = ap (λ (i : ℕ). m i ∷ []) (omega arith)
text-snoc m (suc k) s =
    ap (λ (t : List ℕ). m s ∷ t)
      (text-snoc m k (s + 1) ∙ ap (λ (i : ℕ). text m (s + 1) k ++ (m i ∷ [])) (omega arith))

text_same : (m m' : ℕ → ℕ) (k s : ℕ) → ((i : ℕ) → i < s + k → m i ≡ m' i) → text m s k ≡ text m' s k
unfolding text
text_same m m' zero s h = refl
text_same m m' (suc k) s h =
    ap₂ (λ (a : ℕ) (t : List ℕ). a ∷ t) (h s (omega arith))
      (text_same m m' k (s + 1) (λ i l. h i (omega (arith, l))))

append-nil : (xs : List ℕ) → xs ≡ xs ++ []
append-nil [] = refl
append-nil (x ∷ xs) = ap (λ (l : List ℕ). x ∷ l) (append-nil xs)

append-snoc : (xs : List ℕ) (c : ℕ) (t : List ℕ) → (xs ++ (c ∷ [])) ++ t ≡ xs ++ (c ∷ t)
append-snoc [] c t = refl
append-snoc (x ∷ xs) c t = ap (λ (l : List ℕ). x ∷ l) (append-snoc xs c t)

-- The state after one letter.
typed : Nano → ℕ → Nano
typed n c = record n {
  cursor_pos = n.cursor_pos + 1;
  buffer = update (update n.buffer n.cursor_pos c) (n.cursor_pos + 1) 0;
}

text-typed :
    (n : Nano) (c : ℕ)
    → text (typed n c).buffer 0 (n.cursor_pos + 1) ≡ text n.buffer 0 n.cursor_pos ++ (c ∷ [])
unfolding typed
text-typed n c =
    let b = (typed n c).buffer in
    let longer : n.cursor_pos + 1 ≡ suc n.cursor_pos = omega arith in
    let last : b (0 + n.cursor_pos) ≡ c = ground arith in
    ap (text b 0) longer
    ∙ text-snoc b n.cursor_pos 0
    ∙ ap₂ (λ (t : List ℕ) (x : ℕ). t ++ (x ∷ []))
        (text_same b n.buffer n.cursor_pos 0 (λ i h. ground (arith, h))) last

type_char-typed : (n : Nano) (c : ℕ) → c ≢ 8 → n.cursor_pos < 4095 → type_char n c ≡ typed n c
unfolding type_char typed
type_char-typed n c h room =
    let letter : (c == 8) ≡ false = ground (arith, h) in
    let fits : ltb n.cursor_pos 4095 ≡ true = ground (arith, room) in
    if_false _ _ letter ∙ if_true _ _ fits

module _ {S N : Type 0} (find : S → List ℕ → Option N) (node_length : S → N → ℕ)
    (read_fs : S → N → ℕ → ℕ → (ℕ → ℕ) → (ℕ → ℕ)) (create_file : S → List ℕ → S × Option N)
    (write_fs : S → N → ℕ → ℕ → (ℕ → ℕ) → S) where
  abbrev input : S → Nano → Bool → ℕ → S × Nano
  input = handle_input find node_length read_fs create_file write_fs

  handle_input-IsEditing :
      (s : S) (n : Nano) (ctrl : Bool) (c : ℕ)
      → IsEditing n
      → c ≢ 0
      → IsEditing (input s n ctrl c).1
  unfolding handle_input plain_input
  handle_input-IsEditing s n ctrl c good h =
      let P : S × Nano → Type 0 = λ r. IsEditing r.1 in
      let key = upper c in
      let same : (r h : Bool) → IsEditing (record n { running = r; show_help = h }) =
        λ r h. record { end = good.end; full = good.full; room = good.room; empty = good.empty } in
      if_cases P (not n.running) (λ e. good)
        (λ e.
          if_cases P (ctrl && key == 79) (λ e. good)
            (λ e.
              if_cases P (ctrl && key == 88) (λ e. same false n.show_help)
                (λ e.
                  if_cases P (ctrl && key == 71) (λ e. same n.running (not n.show_help))
                    (λ e.
                      if_cases P (ctrl && key == 75) (λ e. cut_line-IsEditing n good)
                        (λ e.
                          if_cases P (ctrl && key == 85) (λ e. paste_line-IsEditing n good)
                            (λ e.
                              if_cases P (ctrl && (key == 67 || key == 87)) (λ e. good)
                                (λ e.
                                  if_cases P n.show_help (λ e. good)
                                    (λ e.
                                      if_cases P (c == 27) (λ e. same false n.show_help)
                                        (λ e. type_char-IsEditing n c good h)))))))))

  input-typed :
      (s : S) (n : Nano) (c : ℕ)
      → n.running ≡ true
      → n.show_help ≡ false
      → c ≢ 27
      → input s n false c ≡ (s, type_char n c)
  unfolding handle_input plain_input
  input-typed s n c run help h =
      let esc : (c == 27) ≡ false = ground (arith, h) in
      if_false _ _ (ap not run) ∙ if_false _ _ help ∙ if_false _ _ esc

  -- A sequence of keys, each with control or not.
  pub keys : S → Nano → List (Bool × ℕ) → S × Nano
  keys s n [] = (s, n)
  keys s n ((ctrl, c) ∷ cs) = let r = input s n ctrl c in keys r.0 r.1 cs

  -- Where the cursor stands at the end of a text that fits the buffer, and the clipboard is empty,
  -- every sequence of keys, with control or without, leaves it so, whatever the file system does.
  pub keys-IsEditing :
      (s : S) (n : Nano) (cs : List (Bool × ℕ))
      → IsEditing n
      → all_characters cs ≡ true
      → IsEditing (keys s n cs).1
  unfolding keys
  keys-IsEditing s n [] good p = good
  keys-IsEditing s n ((ctrl, c) ∷ cs) good p =
      let r = input s n ctrl c in
      keys-IsEditing r.0 r.1 cs (handle_input-IsEditing s n ctrl c good (ground (arith, p)))
        (ground (arith, p))

  -- In a running editor without the help page, whose cursor stands at the end of its text, typing
  -- characters that are neither zero, backspace nor escape, for which the buffer has room, appends
  -- them to the text.
  pub keys-text :
      (s : S) (n : Nano) (t : List ℕ)
      → IsEditing n
      → n.running ≡ true
      → n.show_help ≡ false
      → all_letters t ≡ true
      → n.cursor_pos + length t ≤ 4095
      → text (keys s n (plain t)).1.buffer 0 (keys s n (plain t)).1.cursor_pos
        ≡ text n.buffer 0 n.cursor_pos ++ t
  unfolding keys plain typed
  keys-text s n [] good run help p room = append-nil (text n.buffer 0 n.cursor_pos)
  keys-text s n (c ∷ t) good run help p room =
      let not_bs : c ≢ 8 = ground (arith, p) in
      let w = typed n c in
      let one : input s n false c ≡ (s, w) =
        input-typed s n c run help (ground (arith, p))
        ∙ ap (λ (m : Nano). (s, m)) (type_char-typed n c not_bs (omega (arith, room))) in
      let good' : IsEditing w =
        rw (sym (type_char-typed n c not_bs (omega (arith, room))))
          (type_char-IsEditing n c good (ground (arith, p))) in
      let rest = keys-text s w t good' run help (ground (arith, p)) (omega (arith, room)) in
      ap (λ (r : S × Nano). let q = keys r.0 r.1 (plain t) in text q.1.buffer 0 q.1.cursor_pos) one
      ∙ (rest
          ∙ ap (λ (l : List ℕ). l ++ t) (text-typed n c)
          ∙ append-snoc (text n.buffer 0 n.cursor_pos) c t)
