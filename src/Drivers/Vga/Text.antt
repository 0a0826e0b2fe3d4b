-- ===== src/Drivers/Vga/Text.antt =====
-- What a written text puts on the screen of kernel/drivers/vga.cpp.
use mesa_os.Prelude.{
  ℕ, suc, if_true, if_false, ◌+◌, ◌-◌, ◌*◌, ◌≤◌, ◌<◌, ◌≡◌, ◌⊎◌, refl, sym, ap, ap₂, ◌∙◌, Bool, true,
  false, ◌&&◌, ◌||◌, Option, none, some, List, [], ◌∷◌, length, get_elem?, arith, ltb, leb, ◌==◌,
  if◌then◌else◌, update, Bool-cases, if_cases, inl, inr,
}
use mesa_os.Drivers.Vga.{
  Vga, put_entry_at, update_cursor, scroll, print_char, put_visible, put_char, write_string,
  cursor_at,
}
use mesa_os.Drivers.Vga.Color.{vga_entry}

-- A terminal that shows what is written, at a place on its screen.
pub record IsLive (v : Vga) : Type 0 where
  pub live : v.scroll_mode ≡ false
  pub plain : v.in_escape ≡ false
  pub row : v.terminal_row ≤ 24
  pub tty : v.current_tty < 4

-- The state after one character that does not end the row.
placed : Vga → ℕ → Vga
placed v c =
    let i = v.terminal_row * 80 + v.terminal_column in
    let entry = vga_entry c v.terminal_color in
    record v {
      terminal_buffer = update v.terminal_buffer i entry;
      tty_buffers =
          update v.tty_buffers v.current_tty (update (v.tty_buffers v.current_tty) i entry);
      terminal_column = v.terminal_column + 1;
      cursor = cursor_at v.terminal_row (v.terminal_column + 1);
    }

module _ (v : Vga) (c : ℕ) (s : IsLive v) (visible : 32 ≤ c)
    (room : v.terminal_column + 1 < 80) where
  abbrev entry : Vga
  entry = put_entry_at v c v.terminal_color v.terminal_column v.terminal_row

  abbrev printed : Vga
  printed = record entry { terminal_column = v.terminal_column + 1 }

  put_visible-printed : put_visible v c ≡ printed
  unfolding put_visible print_char
  put_visible-printed =
      let newline : (c == 10) ≡ false = ground arith in
      let backspace : (c == 8) ≡ false = ground arith in
      let shown : leb 32 c ≡ true = ground arith in
      let fits : leb 80 (v.terminal_column + 1) ≡ false = ground arith in
      if_false _ _ newline ∙ if_false _ _ backspace ∙ if_true _ _ shown ∙ if_false _ _ fits

  put_entry_at-placed : update_cursor (scroll printed) ≡ placed v c
  unfolding put_entry_at scroll update_cursor placed
  put_entry_at-placed =
      let inside : (leb 80 v.terminal_column
            || leb 25 v.terminal_row
            || leb 4 v.current_tty
            || leb 2000 (v.terminal_row * 80 + v.terminal_column))
          ≡ false =
        ground (arith, s.row, s.tty) in
      let fits : ltb v.terminal_row 25 ≡ true = ground (arith, s.row) in
      let shown : (leb 25 v.terminal_row || leb 80 (v.terminal_column + 1)) ≡ false =
        ground (arith, s.row) in
      rw (inside, fits, shown) refl

  put_char-placed : put_char v c ≡ placed v c
  unfolding put_char
  put_char-placed =
      let other : (c == 27) ≡ false = ground arith in
      if_false _ _ s.live
      ∙ if_false _ _ other
      ∙ if_false _ _ s.plain
      ∙ ap (λ (w : Vga). update_cursor (scroll w)) put_visible-printed
      ∙ put_entry_at-placed

-- The character of a text from `start` on that stands at `i`.
pub text_at : List ℕ → ℕ → ℕ → Option ℕ
text_at s start i = if leb start i then get_elem? s (i - start) else none

-- An array of entries with a text over it.
over : ℕ → ℕ → Option ℕ → ℕ
over background color none = background
over background color (some c) = vga_entry c color

pub overlaid : (ℕ → ℕ) → List ℕ → ℕ → ℕ → ℕ → ℕ
overlaid b s start color i = over (b i) color (text_at s start i)

compare_cases : (a b : ℕ) → (a < b) ⊎ (a ≡ b) ⊎ (b < a)
compare_cases a b = elim (Bool-cases (ltb a b)) [
  | inl e ↦ inl (ground arith)
  | inr e ↦ elim (Bool-cases (a == b)) [
    | inl f ↦ inr (inl (ground arith))
    | inr f ↦ inr (inr (ground arith))
  ]
]

text_at-nil : (start i : ℕ) → text_at [] start i ≡ none
unfolding text_at
text_at-nil start i = if_cases (λ o. o ≡ none) (leb start i) (λ e. refl) (λ e. refl)

overlaid-nil : (b : ℕ → ℕ) (start color i : ℕ) → overlaid b [] start color i ≡ b i
unfolding overlaid over
overlaid-nil b start color i = ap (over (b i) color) (text_at-nil start i)

text_at_self : (c : ℕ) (s : List ℕ) (start : ℕ) → text_at (c ∷ s) start start ≡ some c
unfolding text_at
text_at_self c s start =
    let e : start - start ≡ 0 = omega arith in
    let in_ : leb start start ≡ true = ground arith in rw (in_, e) refl

text_at_before : (s : List ℕ) (start i : ℕ) → i < start → text_at s start i ≡ none
unfolding text_at
text_at_before s start i h = let out : leb start i ≡ false = ground (arith, h) in rw out refl

text_at_after :
    (c : ℕ) (s : List ℕ) (start i : ℕ)
    → start < i
    → text_at (c ∷ s) start i ≡ text_at s (start + 1) i
unfolding text_at
text_at_after c s start i h =
    let e : i - start ≡ suc (i - (start + 1)) = omega arith in
    let in_ : leb start i ≡ true = ground (arith, h) in
    let in' : leb (start + 1) i ≡ true = ground (arith, h) in rw (in_, in', e) refl

overlaid-cons :
    (b : ℕ → ℕ) (c : ℕ) (s : List ℕ) (start color i : ℕ)
    → overlaid (update b start (vga_entry c color)) s (start + 1) color i
      ≡ overlaid b (c ∷ s) start color i
unfolding overlaid over
overlaid-cons b c s start color i = elim (compare_cases i start) [
  | inl h ↦
      let off : (start == i) ≡ false = ground (arith, h) in
      ap (over _ color) (text_at_before s (start + 1) i (omega arith))
      ∙ if_false _ _ off
      ∙ sym (ap (over (b i) color) (text_at_before (c ∷ s) start i h))
  | inr (inl h) ↦
      let on : (start == i) ≡ true = ground (arith, h) in
      ap (over _ color) (text_at_before s (start + 1) i (omega arith))
      ∙ if_true _ _ on
      ∙ sym (ap (over (b i) color) (ap (text_at (c ∷ s) start) h ∙ text_at_self c s start))
  | inr (inr h) ↦
      let off : (start == i) ≡ false = ground (arith, h) in
      ap (over _ color) (sym (text_at_after c s start i h))
      ∙ ap (λ (x : ℕ). over x color (text_at (c ∷ s) start i)) (if_false _ _ off)
]

abbrev pub all_printable : List ℕ → Bool
all_printable [] = true
all_printable (c ∷ s) = leb 32 c && all_printable s

placed-IsLive : (v : Vga) (c : ℕ) → IsLive v → IsLive (placed v c)
unfolding placed
placed-IsLive v c s = record { live = s.live; plain = s.plain; row = s.row; tty = s.tty }

-- On a terminal that is neither scrolled back nor in an escape sequence, a string of printable
-- characters that ends before the end of the row appears from the cursor on in the current colour,
-- on the screen and in its copy; all other entries stay, and the cursor moves on by the length.
pub write_string_lem :
    (s : List ℕ) (v : Vga)
    → IsLive v
    → all_printable s ≡ true
    → v.terminal_column + length s < 80
    → (i : ℕ)
    → ((write_string v s).terminal_row ≡ v.terminal_row)
      × ((write_string v s).terminal_column ≡ v.terminal_column + length s)
      × ((write_string v s).terminal_buffer i
          ≡ overlaid v.terminal_buffer s
              (v.terminal_row * 80 + v.terminal_column)
              v.terminal_color
              i)
      × ((write_string v s).tty_buffers v.current_tty i
          ≡ overlaid
              (v.tty_buffers v.current_tty)
              s
              (v.terminal_row * 80 + v.terminal_column)
              v.terminal_color
              i)
unfolding write_string placed
write_string_lem [] v live p h i = (
  refl,
  omega arith,
  sym (overlaid-nil v.terminal_buffer (v.terminal_row * 80 + v.terminal_column) v.terminal_color i),
  sym (
      overlaid-nil (v.tty_buffers v.current_tty) (v.terminal_row * 80 + v.terminal_column)
        v.terminal_color i),
)
write_string_lem (c ∷ s) v live p h i =
    let visible : 32 ≤ c = ground (arith, p) in
    let others : all_printable s ≡ true = ground (arith, p) in
    let start = v.terminal_row * 80 + v.terminal_column in
    let w = placed v c in
    let one : write_string v (c ∷ s) ≡ write_string w s =
      ap (λ (u : Vga). write_string u s) (put_char-placed v c live visible (omega (arith, h))) in
    let same : (v.current_tty == v.current_tty) ≡ true = ground arith in
    let mirror = v.tty_buffers v.current_tty in
    let next : v.terminal_row * 80 + (v.terminal_column + 1) ≡ start + 1 = omega arith in
    let (row, column, screen, buffer) =
      write_string_lem s w (placed-IsLive v c live) others (omega (arith, h)) i in
    rw one (
      row,
      column ∙ omega arith,
      screen
          ∙ ap (λ (x : ℕ). overlaid w.terminal_buffer s x v.terminal_color i) next
          ∙ overlaid-cons v.terminal_buffer c s start v.terminal_color i,
      buffer
          ∙ ap₂ (λ (b : ℕ → ℕ) (x : ℕ). overlaid b s x v.terminal_color i)
              (if_true (update mirror start (vga_entry c v.terminal_color)) mirror same) next
          ∙ overlaid-cons mirror c s start v.terminal_color i,
    )
