-- ===== src/Drivers/Keyboard/Typing.antt =====
-- Sequences of scan codes in kernel/drivers/keyboard.cpp: the modifier keys, and typed text.
use mesa_os.Prelude.{
  ℕ, ◌+◌, ◌<◌, ◌≡◌, ◌≢◌, refl, ap, ◌∙◌, Bool, true, false, not, ◌&&◌, ◌||◌, Option, none, some,
  List, [], ◌∷◌, ◌++◌, bit_and, arith, ltb, leb, ◌==◌, if◌then◌else◌, if_cases, if_true, if_false,
}
use mesa_os.Prelude.Bits.Fields.{bit_and_0x80}
use mesa_os.Drivers.Keyboard.{
  Keyboard, InputHandler, Action, character, send, plain_key, handle_scancode, callback,
}

pub with_action : Option Action → List Action → List Action
with_action none as_ = as_
with_action (some a) as_ = a ∷ as_

-- A run of interrupts, with the calls it makes.
pub run : Bool → Keyboard → List ℕ → Keyboard × List Action
run nano k [] = (k, [])
run nano k (c ∷ cs) =
    let (k', a) = callback nano k c in let (k'', rest) = run nano k' cs in (k'', with_action a rest)

-- Whether the last code of a list that is one of a key's was that of a press.
pub held : (ℕ → Bool) → (ℕ → Bool) → Bool → List ℕ → Bool
held press release b [] = b
held press release b (c ∷ cs) =
    held press release (if press c then true else if release c then false else b) cs

abbrev pub shift_down : ℕ → Bool
shift_down c = c == 0x2a || c == 0x36

abbrev pub shift_up : ℕ → Bool
shift_up c = c == 0xaa || c == 0xb6

one_modifier :
    (nano : Bool) (k : Keyboard) (c : ℕ)
    → ((callback nano k c).0.shift_pressed
        ≡ (if shift_down c then true else if shift_up c then false else k.shift_pressed))
      × ((callback nano k c).0.ctrl_pressed
          ≡ (if c == 0x1d then true else if c == 0x9d then false else k.ctrl_pressed))
unfolding callback handle_scancode
one_modifier nano k c =
    let P : Keyboard × Option Action → Type 0 = λ r.
      (r.0.shift_pressed
        ≡ (if shift_down c then true else if shift_up c then false else k.shift_pressed))
      × (r.0.ctrl_pressed
          ≡ (if c == 0x1d then true else if c == 0x9d then false else k.ctrl_pressed)) in
    if_cases P (not (c == 0x00) && not (c == 0xff))
      (λ e.
        if_cases P (shift_down c) (λ f. (ground arith, ground arith))
          (λ f.
            if_cases P (shift_up c) (λ g. (ground arith, ground arith))
              (λ g.
                if_cases P (c == 0xe0) (λ h. (ground arith, ground arith))
                  (λ h.
                    if_cases P (c == 0x1d) (λ i. (ground arith, ground arith))
                      (λ i.
                        if_cases P (c == 0x9d) (λ j. (ground arith, ground arith))
                          (λ j.
                            if_cases P k.e0_escape (λ l. (ground arith, ground arith))
                              (λ l.
                                if_cases P (c == 0x38) (λ m. (ground arith, ground arith))
                                  (λ m.
                                    if_cases P (c == 0xb8) (λ n. (ground arith, ground arith))
                                      (λ n.
                                        if_cases P (k.alt_pressed && leb 0x3b c && leb c 0x3e)
                                          (λ o. (ground arith, ground arith))
                                          (λ o. (ground arith, ground arith)))))))))))
      (λ e. (ground arith, ground arith))

-- After any sequence of scan codes, shift counts as held exactly if the last code of a shift key
-- was that of a press, and so for control, where none came as at the start; extended codes and
-- other keys make no difference.
pub run-held :
    (nano : Bool) (cs : List ℕ) (k : Keyboard)
    → ((run nano k cs).0.shift_pressed ≡ held shift_down shift_up k.shift_pressed cs)
      × ((run nano k cs).0.ctrl_pressed ≡ held (λ c. c == 0x1d) (λ c. c == 0x9d) k.ctrl_pressed cs)
unfolding run held
run-held nano [] k = (refl, refl)
run-held nano (c ∷ cs) k =
    let (shift, ctrl) = one_modifier nano k c in
    let (rest_shift, rest_ctrl) = run-held nano cs (callback nano k c).0 in
    (
      rest_shift ∙ ap (λ (b : Bool). held shift_down shift_up b cs) shift,
      rest_ctrl ∙ ap (λ (b : Bool). held (λ c. c == 0x1d) (λ c. c == 0x9d) b cs) ctrl,
    )

-- No modifier is held but perhaps shift, and no extended key has begun.
unfoldable pub idle : Bool → Option InputHandler → Keyboard
idle shift h = record {
  shift_pressed = shift;
  ctrl_pressed = false;
  alt_pressed = false;
  e0_escape = false;
  current_input_handler = h;
}

-- The scan codes of a key, with shift or without.
pub keystroke : Bool × ℕ → List ℕ
keystroke (true, code) = 0x2a ∷ code ∷ (code + 0x80) ∷ 0xaa ∷ []
keystroke (false, code) = code ∷ (code + 0x80) ∷ []

-- The codes for a text, and the calls that its characters make.
pub keystrokes : List (Bool × ℕ) → List ℕ
keystrokes [] = []
keystrokes (key ∷ keys) = keystroke key ++ keystrokes keys

pub sent : Option InputHandler → List (Bool × ℕ) → List Action
sent h [] = []
sent h ((shift, code) ∷ keys) = send h (character shift code) ∷ sent h keys

-- The keys that have a character.
unfoldable pub HaveCharacters : List (Bool × ℕ) → Type 0
HaveCharacters [] = Unit
HaveCharacters ((shift, code) ∷ keys) =
    (code < 59) × (character shift code ≢ 0) × HaveCharacters keys

-- No modifier key has a character.
no_modifier :
    (shift : Bool) (code : ℕ)
    → character shift code ≢ 0
    → (code ≢ 0) × (code ≢ 0x2a) × (code ≢ 0x36) × (code ≢ 0x1d) × (code ≢ 0x38)
unfolding character
no_modifier true code h =
    let at : (n : ℕ) → character true n ≡ 0 → code ≢ n = λ n z e. h (ap (character true) e ∙ z) in
    (at 0 refl, at 0x2a refl, at 0x36 refl, at 0x1d refl, at 0x38 refl)
no_modifier false code h =
    let at : (n : ℕ) → character false n ≡ 0 → code ≢ n = λ n z e. h (ap (character false) e ∙ z) in
    (at 0 refl, at 0x2a refl, at 0x36 refl, at 0x1d refl, at 0x38 refl)

press :
    (nano shift : Bool) (h : Option InputHandler) (code : ℕ)
    → code < 59
    → character shift code ≢ 0
    → callback nano (idle shift h) code ≡ (idle shift h, some (send h (character shift code)))
unfolding callback handle_scancode idle plain_key
press nano shift h code low there =
    let (n0, n1, n2, n3, n4) = no_modifier shift code there in
    let e0 : (not (code == 0) && not (code == 0xff)) ≡ true = ground (arith, n0) in
    let e1 : (code == 0x2a || code == 0x36) ≡ false = ground (arith, n1, n2) in
    let e2 : (code == 0xaa || code == 0xb6) ≡ false = ground arith in
    let e3 : (code == 0xe0) ≡ false = ground arith in
    let e4 : (code == 0x1d) ≡ false = ground (arith, n3) in
    let e5 : (code == 0x9d) ≡ false = ground arith in
    let e6 : (code == 0x38) ≡ false = ground (arith, n4) in
    let e7 : (code == 0xb8) ≡ false = ground arith in
    let e8 : not (bit_and code 0x80 == 0) ≡ false =
      ground (arith, bit_and_0x80 code (omega arith)) in
    let e9 : (ltb code 59 && not (character shift code == 0)) ≡ true = ground (arith, there) in
    let key : plain_key (idle shift h) code ≡ some (send h (character shift code)) =
      if_false _ _ e8 ∙ if_true _ _ e9 in
    if_true _ _ e0
    ∙ if_false _ _ e1
    ∙ if_false _ _ e2
    ∙ if_false _ _ e3
    ∙ if_false _ _ e4
    ∙ if_false _ _ e5
    ∙ if_false _ _ e6
    ∙ if_false _ _ e7
    ∙ ap (λ (a : Option Action). (idle shift h, a)) key

release :
    (nano shift : Bool) (h : Option InputHandler) (code : ℕ)
    → code < 59
    → character shift code ≢ 0
    → callback nano (idle shift h) (code + 0x80) ≡ (idle shift h, none)
unfolding callback handle_scancode idle plain_key
release nano shift h code low there =
    let (n0, n1, n2, n3, n4) = no_modifier shift code there in
    let up = code + 0x80 in
    let e0 : (not (up == 0) && not (up == 0xff)) ≡ true = ground arith in
    let e1 : (up == 0x2a || up == 0x36) ≡ false = ground arith in
    let e2 : (up == 0xaa || up == 0xb6) ≡ false = ground (arith, n1, n2) in
    let e3 : (up == 0xe0) ≡ false = ground arith in
    let e4 : (up == 0x1d) ≡ false = ground arith in
    let e5 : (up == 0x9d) ≡ false = ground (arith, n3) in
    let e6 : (up == 0x38) ≡ false = ground arith in
    let e7 : (up == 0xb8) ≡ false = ground (arith, n4) in
    let e8 : not (bit_and up 0x80 == 0) ≡ true = ground (arith, bit_and_0x80 up (omega arith)) in
    if_true _ _ e0
    ∙ if_false _ _ e1
    ∙ if_false _ _ e2
    ∙ if_false _ _ e3
    ∙ if_false _ _ e4
    ∙ if_false _ _ e5
    ∙ if_false _ _ e6
    ∙ if_false _ _ e7
    ∙ ap (λ (a : Option Action). (idle shift h, a)) (if_true _ _ e8)
