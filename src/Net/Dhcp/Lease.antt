-- ===== src/Net/Dhcp/Lease.antt =====
-- What kernel/net/dhcp.cpp takes from the options of a message.
use mesa_os.Prelude.{
  ℕ, zero, suc, ◌+◌, ◌^◌, ◌<◌, ◌≤◌, ◌≡◌, ◌≢◌, ◌⊎◌, inl, inr, ◌&&◌, refl, ap, ap₂, ◌∙◌, true, false,
  List, [], ◌∷◌, ◌++◌, length, length-append, ltb, leb, ◌==◌, arith, if_true, if_false, all_below,
}
use mesa_os.Net.Ipv4.{Ipv4, set_ip, set_netmask, set_gateway}
use mesa_os.Net.Packet.{word32, byte}
use mesa_os.Net.Packet.Words.{bytes32}
use mesa_os.Net.Dhcp.Options.{parse_options_fuel}
use mesa_os.Net.Dhcp.{read_option, parse_options, handle_packet}

-- An option: a netmask of four bytes, the first of some routers with the bytes behind it, a zero
-- byte, or another one, which may be a netmask of another length or a router of fewer than four bytes.
pub data Item : Type 0 where
  netmask : ℕ → Item
  router : ℕ → List ℕ → Item
  pad : Item
  other : ℕ → List ℕ → Item

unfoldable pub item_bytes : Item → List ℕ
item_bytes (netmask mask) = 1 ∷ 4 ∷ byte 0 mask ∷ byte 1 mask ∷ byte 2 mask ∷ byte 3 mask ∷ []
item_bytes (router ip more) =
    3 ∷ (4 + length more) ∷ byte 0 ip ∷ byte 1 ip ∷ byte 2 ip ∷ byte 3 ip ∷ more
item_bytes pad = 0 ∷ []
item_bytes (other code value) = code ∷ length value ∷ value

-- All options and the end.
unfoldable pub encode : List Item → List ℕ
encode [] = 255 ∷ []
encode (item ∷ items) = item_bytes item ++ encode items

-- What an option means.
unfoldable pub apply : Item → Ipv4 → Ipv4
apply (netmask mask) s = set_netmask mask s
apply (router ip more) s = set_gateway ip s
apply pad s = s
apply (other code value) s = s

unfoldable pub apply_all : List Item → Ipv4 → Ipv4
apply_all [] s = s
apply_all (item ∷ items) s = apply_all items (apply item s)

abbrev pub IsItem : Item → Type 0
IsItem (netmask mask) = mask < 2 ^ 32
IsItem (router ip more) = ip < 2 ^ 32
IsItem pad = Unit {0}
IsItem (other code value) =
    (code ≢ 0)
    × (code ≢ 255)
    × ((code ≢ 1) ⊎ (length value ≢ 4))
    × ((code ≢ 3) ⊎ (length value < 4))

abbrev pub AreItems : List Item → Type 0
AreItems [] = Unit {0}
AreItems (item ∷ items) = IsItem item × AreItems items

-- The packet has these bytes from the offset on.
abbrev pub Holds : (ℕ → ℕ) → ℕ → List ℕ → Type 0
Holds p at [] = Unit {0}
Holds p at (b ∷ bs) = (p at ≡ b) × Holds p (at + 1) bs

Holds-append :
    (xs ys : List ℕ) (p : ℕ → ℕ) (at : ℕ) → Holds p at (xs ++ ys) → Holds p (at + length xs) ys
Holds-append [] ys p at h = let e : at + 0 ≡ at = omega arith in rw e h
Holds-append (x ∷ xs) ys p at h =
    let e : at + suc (length xs) ≡ at + 1 + length xs = omega arith in
    rw e (Holds-append xs ys p (at + 1) (h.1))

one_step :
    (f : ℕ) (p : ℕ → ℕ) (size at code len : ℕ) (s : Ipv4)
    → at < size
    → p at ≡ code
    → p (at + 1) ≡ len
    → code ≢ 0
    → code ≢ 255
    → parse_options (suc f) p size at s
      ≡ parse_options f p size (at + 2 + len) (read_option p code len (at + 2) s)
unfolding parse_options
one_step f p size at code len s h c l z e =
    let inside : ltb at size ≡ true = ground arith in
    let more : (code == 255) ≡ false = ground arith in
    let some_code : (code == 0) ≡ false = ground arith in
    let next = if_false (at + 1) (at + 2 + len) some_code in
    let read = if_false s (read_option p code len (at + 2) s) some_code in
    if_true _ s inside ∙ rw (c, l) (if_false s _ more ∙ ap₂ (parse_options f p size) next read)

step_pad :
    (f : ℕ) (p : ℕ → ℕ) (size at : ℕ) (s : Ipv4)
    → at < size
    → p at ≡ 0
    → parse_options (suc f) p size at s ≡ parse_options f p size (at + 1) s
unfolding parse_options
step_pad f p size at s h c =
    let inside : ltb at size ≡ true = ground arith in if_true _ s inside ∙ rw c refl

step_end :
    (f : ℕ) (p : ℕ → ℕ) (size at : ℕ) (s : Ipv4)
    → at < size
    → p at ≡ 255
    → parse_options (suc f) p size at s ≡ s
unfolding parse_options
step_end f p size at s h c =
    let inside : ltb at size ≡ true = ground arith in if_true _ s inside ∙ rw c refl

read_word :
    (p : ℕ → ℕ) (at v : ℕ) (more : List ℕ)
    → v < 2 ^ 32
    → Holds p at (byte 0 v ∷ byte 1 v ∷ byte 2 v ∷ byte 3 v ∷ more)
    → word32 p at ≡ v
read_word p at v more h k =
    let two : at + 2 ≡ at + 1 + 1 = omega arith in
    let three : at + 3 ≡ at + 1 + 1 + 1 = omega arith in
    rw (k.0, k.1.0, ap p two ∙ k.1.1.0, ap p three ∙ k.1.1.1.0) (bytes32 v h)

not_netmask : (code n : ℕ) → (code ≢ 1) ⊎ (n ≢ 4) → (code == 1 && n == 4) ≡ false
not_netmask code n (inl h) = ground (arith, h)
not_netmask code n (inr h) = ground (arith, h)

not_router : (code n : ℕ) → (code ≢ 3) ⊎ (n < 4) → (code == 3 && leb 4 n) ≡ false
not_router code n (inl h) = ground (arith, h)
not_router code n (inr h) = ground (arith, h)

-- An option in front of others is taken, and the loop goes on behind it.
item_step :
    (item : Item) (rest : List ℕ) (f : ℕ) (p : ℕ → ℕ) (size at : ℕ) (s : Ipv4)
    → IsItem item
    → Holds p at (item_bytes item ++ rest)
    → at < size
    → parse_options (suc f) p size at s
      ≡ parse_options f p size (at + length (item_bytes item)) (apply item s)
unfolding item_bytes apply read_option
item_step (netmask mask) rest f p size at s i h k =
    let two : at + 2 ≡ at + 1 + 1 = omega arith in
    let w : word32 p (at + 2) ≡ mask = read_word p (at + 2) mask rest i (rw two (h.1.1)) in
    let next : at + 2 + 4 ≡ at + 6 = omega arith in
    one_step f p size at 1 4 s k (h.0) (h.1.0) (ground arith) (ground arith)
    ∙ ap₂ (parse_options f p size) next (ap (λ (m : ℕ). set_netmask m s) w)
item_step (router ip more) rest f p size at s i h k =
    let two : at + 2 ≡ at + 1 + 1 = omega arith in
    let w : word32 p (at + 2) ≡ ip = read_word p (at + 2) ip (more ++ rest) i (rw two (h.1.1)) in
    let long : leb 4 (4 + length more) ≡ true = ground arith in
    let next : at + 2 + (4 + length more) ≡ at + length (item_bytes (router ip more)) =
      omega arith in
    one_step f p size at 3 (4 + length more) s k (h.0) (h.1.0) (ground arith) (ground arith)
    ∙ ap₂ (parse_options f p size) next (if_true _ s long ∙ ap (λ (m : ℕ). set_gateway m s) w)
item_step pad rest f p size at s i h k = step_pad f p size at s k (h.0)
item_step (other code value) rest f p size at s i h k =
    let one : (code == 1 && length value == 4) ≡ false = not_netmask code (length value) (i.2) in
    let three : (code == 3 && leb 4 (length value)) ≡ false =
      not_router code (length value) (i.3) in
    let next : at + 2 + length value ≡ at + length (item_bytes (other code value)) = omega arith in
    let none_read : read_option p code (length value) (at + 2) s ≡ s = rw (one, three) refl in
    one_step f p size at code (length value) s k (h.0) (h.1.0) (i.0) (i.1)
    ∙ ap₂ (parse_options f p size) next none_read

encode_not_empty : (items : List Item) → 0 < length (encode items)
unfolding encode
encode_not_empty [] = omega arith
encode_not_empty (item ∷ items) =
    omega (arith, length-append (item_bytes item) (encode items), encode_not_empty items)

-- For any list of options that is written into a message with the end behind it, and at least as
-- much fuel as there are bytes left: the loop over the options does what each netmask of four bytes
-- and the first router of each list of at least four bytes say, one option after the other, and
-- passes over zero bytes and all other options, among them netmasks that are not of four bytes and
-- lists of routers of fewer than four.
pub parse_options-encode :
    (items : List Item) (f : ℕ) (p : ℕ → ℕ) (size at : ℕ) (s : Ipv4)
    → AreItems items
    → Holds p at (encode items)
    → at + length (encode items) ≤ size
    → size ≤ f + at
    → parse_options f p size at s ≡ apply_all items s
unfolding encode apply_all
parse_options-encode [] zero p size at s i h k l = absurd (omega arith)
parse_options-encode [] (suc f) p size at s i h k l = step_end f p size at s (omega arith) (h.0)
parse_options-encode (item ∷ items) f p size at s i h k l =
    let sum = length-append (item_bytes item) (encode items) in
    let some_left = encode_not_empty items in
    parse_options_fuel f (suc f) p size at s l (omega arith)
    ∙ item_step item (encode items) f p size at s (i.0) h (omega (arith, sum, some_left))
    ∙ parse_options-encode items f p size (at + length (item_bytes item)) (apply item s) (i.1)
        (Holds-append (item_bytes item) (encode items) p at h) (omega (arith, sum)) (omega arith)

-- A message for this card with an address and options.
abbrev pub IsReply : ℕ → (ℕ → ℕ) → ℕ → ℕ → List Item → Type 0
IsReply mac message size ip items =
    (all_below (λ i. message (28 + i) == byte i mac) 6 ≡ true)
    × ((word32 message 16 ≡ ip)
        × ((ip ≢ 0)
            × (AreItems items
                × (Holds message 240 (encode items) × (240 + length (encode items) ≤ size)))))

-- Such a message sets the address, and then does what its options say.
pub handle_packet_configures :
    (mac : ℕ) (message : ℕ → ℕ) (size ip : ℕ) (items : List Item) (s : Ipv4)
    → IsReply mac message size ip items
    → handle_packet mac message size s ≡ apply_all items (set_ip ip s)
unfolding handle_packet
handle_packet_configures mac message size ip items s h =
    let long : ltb size 240 ≡ false = ground (arith, h) in
    let there : (ip == 0) ≡ false = ground (arith, h) in
    let own = h.0 in
    let parsed =
      parse_options-encode items size message size 240 (set_ip ip s) (h.1.1.1.0) (h.1.1.1.1.0)
        (h.1.1.1.1.1) (omega arith) in
    if_false s _ long ∙ if_true _ s own ∙ rw (h.1.0) (if_false s _ there ∙ parsed)
