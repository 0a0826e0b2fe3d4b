-- ===== src/Fs/Mesafs/Sectors.antt =====
-- The bytes of the files on the disk of kernel/fs/mesafs.cpp, and the loops over their sectors.
use mesa_os.Prelude.{
  ℕ, zero, suc, ◌+◌, ◌-◌, ◌/◌, ◌%◌, ◌^◌, ◌≤◌, ◌<◌, ◌≡◌, ◌≢◌, refl, sym, ap, ap₂, ◌∙◌, Bool, true,
  false, ◌&&◌, ◌||◌, arith, ltb, leb, ◌==◌, if◌then◌else◌, update, Bool-cases, if_cases, if_true,
  if_false, inl, inr,
}
use mesa_os.Fs.Ramfs.{copy_in}
use mesa_os.Fs.Mesafs.{chunk, read_from, write_from}

-- Byte `p` of a file whose first sector is `start`.
unfoldable pub file_byte : (ℕ → ℕ → ℕ) → ℕ → ℕ → ℕ
file_byte disk start p = disk ((start + p / 512) % 2 ^ 32) (p % 512)

-- A chunk ends within its sector.
chunk_lem : (o r : ℕ) → 0 < r → (0 < chunk o r) × (chunk o r ≤ r) × (o % 512 + chunk o r ≤ 512)
unfolding chunk
chunk_lem o r h = ground (arith, h)

-- Within a chunk the sector stays.
in_chunk :
    (disk : ℕ → ℕ → ℕ) (start o r k : ℕ)
    → 0 < r
    → k < chunk o r
    → file_byte disk start (o + k) ≡ disk ((start + o / 512) % 2 ^ 32) (o % 512 + k)
unfolding file_byte
in_chunk disk start o r k h l =
    let (some_, most, within) = chunk_lem o r h in
    let q : (o + k) / 512 ≡ o / 512 = omega (arith, within, l) in
    let p : (o + k) % 512 ≡ o % 512 + k = omega (arith, within, l) in
    ap₂ (λ (x y : ℕ). disk ((start + x) % 2 ^ 32) y) q p

-- What a chunk copies, as bytes of the file.
chunk_bytes :
    (disk : ℕ → ℕ → ℕ) (start o r p a old : ℕ)
    → 0 < r
    → (if leb p a && ltb a (p + chunk o r)
        then disk ((start + o / 512) % 2 ^ 32) (o % 512 + (a - p))
        else old)
      ≡ (if leb p a && ltb a (p + chunk o r) then file_byte disk start (o + (a - p)) else old)
chunk_bytes disk start o r p a old h = elim (Bool-cases (leb p a && ltb a (p + chunk o r))) [
  | inl e ↦ rw e (sym (in_chunk disk start o r (a - p) h (ground (arith, e))))
  | inr e ↦ rw e refl
]

-- A chunk of a range of bytes, and the rest of the range, are the range.
join :
    (value : ℕ → ℕ) (old c q end a : ℕ)
    → 0 < c
    → q + c ≤ end
    → (if leb (q + c) a && ltb a end
        then value (c + (a - (q + c)))
        else if leb q a && ltb a (q + c)
        then value (a - q)
        else old)
      ≡ (if leb q a && ltb a end then value (a - q) else old)
join value old c q end a h k = elim (Bool-cases (leb (q + c) a && ltb a end)) [
  | inl e ↦
      let in_ : (leb q a && ltb a end) ≡ true = ground (arith, e) in
      let place : c + (a - (q + c)) ≡ a - q = ground (arith, e) in rw (e, in_) (ap value place)
  | inr e ↦ elim (Bool-cases (leb q a && ltb a (q + c))) [
    | inl f ↦
        let in_ : (leb q a && ltb a end) ≡ true = ground (arith, f, h, k) in rw (e, f, in_) refl
    | inr f ↦
        let out : (leb q a && ltb a end) ≡ false = ground (arith, e, f, h, k) in rw (e, f, out) refl
  ]
]

-- The loop of `read`, from a place where `done` bytes are read.
pub read_from_lem :
    (fuel : ℕ) (disk : ℕ → ℕ → ℕ) (start : ℕ) (m : ℕ → ℕ) (buffer size o done a : ℕ)
    → size ≤ done + fuel
    → o + (size - done) < 2 ^ 32
    → (read_from disk start m buffer size o done fuel).0 a ≡ (
        if leb (buffer + done) a && ltb a (buffer + size)
        then file_byte disk start (o + (a - (buffer + done)))
        else m a)
unfolding read_from file_byte
read_from_lem zero disk start m buffer size o done a enough fits = ground (arith, enough)
read_from_lem (suc fuel) disk start m buffer size o done a enough fits =
    elim (Bool-cases (ltb done size)) [
      | inr e ↦
          let out : (leb (buffer + done) a && ltb a (buffer + size)) ≡ false = ground (arith, e) in
          ap (λ (r : (ℕ → ℕ) × ℕ). r.0 a) (if_false _ (m, done) e) ∙ sym (if_false _ _ out)
      | inl e ↦
          let below : done < size = ground (arith, e) in
          let left : 0 < size - done = omega (arith, below) in
          let c = chunk o (size - done) in
          let (some_, most, within) = chunk_lem o (size - done) left in
          let sector = disk ((start + o / 512) % 2 ^ 32) in
          let m' = copy_in m (buffer + done) (λ k. sector (o % 512 + k)) c in
          let next : (o + c) % 2 ^ 32 ≡ o + c = omega (arith, most, fits) in
          let ih =
            read_from_lem fuel disk start m' buffer size (o + c) (done + c) a
              (omega (arith, some_, enough)) (omega (arith, most, fits)) in
          let assoc : buffer + (done + c) ≡ buffer + done + c = omega arith in
          let place : o + c + (a - (buffer + done + c)) ≡ o + (c + (a - (buffer + done + c))) =
            omega arith in
          ap (λ (r : (ℕ → ℕ) × ℕ). r.0 a) (if_true _ (m, done) e)
          ∙ ap (λ (x : ℕ). (read_from disk start m' buffer size x (done + c) fuel).0 a) next
          ∙ ih
          ∙ ap
              (λ (x : ℕ).
                if leb x a && ltb a (buffer + size)
                then file_byte disk start (o + c + (a - x))
                else m' a)
              assoc
          ∙ ap₂ (λ (x y : ℕ). if leb (buffer + done + c) a && ltb a (buffer + size) then x else y)
              (ap (file_byte disk start) place)
              (chunk_bytes disk start o (size - done) (buffer + done) a (m a) left)
          ∙ join (λ (k : ℕ). file_byte disk start (o + k)) (m a) c (buffer + done) (buffer + size) a
              some_ (omega (arith, most, below))
    ]

-- Writing. Sectors of different places in a range that does not wrap around are different.
same_sector :
    (start x y : ℕ)
    → x < 2 ^ 23
    → y < 2 ^ 23
    → ((start + x) % 2 ^ 32 == (start + y) % 2 ^ 32) ≡ (x == y)
same_sector start x y h k = ground (arith, h, k)

-- A sector that is not read first is written as a whole.
whole_sector :
    (o r q : ℕ)
    → q < 512
    → (leb (o % 512) q && ltb q (o % 512 + chunk o r)) ≡ false
    → (ltb 0 (o % 512) || ltb r 512) ≡ true
unfolding chunk
whole_sector o r q h e = ground (arith, h, e)

-- One chunk of `write`, at byte `p` of the file.
write_chunk :
    (disk : ℕ → ℕ → ℕ) (start : ℕ) (buffer : ℕ → ℕ) (o r done p : ℕ)
    → 0 < r
    → o < 2 ^ 32
    → p < 2 ^ 32
    → file_byte
        (update disk ((start + o / 512) % 2 ^ 32) (
          copy_in
            (if ltb 0 (o % 512) || ltb r 512 then disk ((start + o / 512) % 2 ^ 32) else (λ k. 0))
            (o % 512)
            (λ k. buffer (done + k))
            (chunk o r)))
        start
        p
      ≡ (if leb o p && ltb p (o + chunk o r)
          then buffer (done + (p - o))
          else file_byte disk start p)
unfolding file_byte
write_chunk disk start buffer o r done p h k l =
    let (some_, most, within) = chunk_lem o r h in
    let lba = (start + o / 512) % 2 ^ 32 in
    let f : ℕ → ℕ = λ i. buffer (done + i) in
    let old : ℕ → ℕ = if ltb 0 (o % 512) || ltb r 512 then disk lba else (λ i. 0) in
    let sector = copy_in old (o % 512) f (chunk o r) in
    let other : (p' : Bool) → (o / 512 == p / 512) ≡ p' → (lba == (start + p / 512) % 2 ^ 32) ≡ p' =
      λ p' e. same_sector start (o / 512) (p / 512) (omega arith) (omega arith) ∙ e in
    elim (Bool-cases (o / 512 == p / 512)) [
      | inr e ↦
          let out : (leb o p && ltb p (o + chunk o r)) ≡ false = ground (arith, e, within) in
          ap (λ (g : ℕ → ℕ). g (p % 512))
            (if_false sector (disk ((start + p / 512) % 2 ^ 32)) (other false e))
          ∙ sym (if_false _ _ out)
      | inl e ↦
          let same : o / 512 ≡ p / 512 = ground (arith, e) in
          ap (λ (g : ℕ → ℕ). g (p % 512))
            (if_true sector (disk ((start + p / 512) % 2 ^ 32)) (other true e))
          ∙ elim (Bool-cases (leb (o % 512) (p % 512) && ltb (p % 512) (o % 512 + chunk o r))) [
            | inl g ↦
                let in_ : (leb o p && ltb p (o + chunk o r)) ≡ true = ground (arith, g, same) in
                if_true _ _ g ∙ ap buffer (omega (arith, same)) ∙ sym (if_true _ _ in_)
            | inr g ↦
                let out : (leb o p && ltb p (o + chunk o r)) ≡ false = ground (arith, g, same) in
                let kept : (ltb 0 (o % 512) || ltb r 512) ≡ true =
                  whole_sector o r (p % 512) (omega arith) g in
                if_false _ _ g
                ∙ ap (λ (q : ℕ → ℕ). q (p % 512)) (if_true (disk lba) (λ i. 0) kept)
                ∙ ap (λ (x : ℕ). disk ((start + x) % 2 ^ 32) (p % 512)) same
                ∙ sym (if_false _ _ out)
          ]
    ]

-- The loop of `write`, from a place where `done` bytes are written.
pub write_from_lem :
    (fuel : ℕ) (disk : ℕ → ℕ → ℕ) (start : ℕ) (buffer : ℕ → ℕ) (size o done p : ℕ)
    → size ≤ done + fuel
    → o + (size - done) < 2 ^ 32
    → p < 2 ^ 32
    → file_byte (write_from disk start buffer size o done fuel).0 start p ≡ (
        if leb o p && ltb p (o + (size - done))
        then buffer (done + (p - o))
        else file_byte disk start p)
unfolding write_from
write_from_lem zero disk start buffer size o done p enough fits l =
    let out : (leb o p && ltb p (o + (size - done))) ≡ false = ground (arith, enough) in
    sym (if_false _ _ out)
write_from_lem (suc fuel) disk start buffer size o done p enough fits l =
    elim (Bool-cases (ltb done size)) [
      | inr e ↦
          let out : (leb o p && ltb p (o + (size - done))) ≡ false = ground (arith, e) in
          ap (λ (r : (ℕ → ℕ → ℕ) × ℕ). file_byte r.0 start p) (if_false _ (disk, done) e)
          ∙ sym (if_false _ _ out)
      | inl e ↦
          let below : done < size = ground (arith, e) in
          let left : 0 < size - done = omega (arith, below) in
          let c = chunk o (size - done) in
          let (some_, most, within) = chunk_lem o (size - done) left in
          let lba = (start + o / 512) % 2 ^ 32 in
          let old : ℕ → ℕ =
            if ltb 0 (o % 512) || ltb (size - done) 512 then disk lba else (λ i. 0) in
          let disk' = update disk lba (copy_in old (o % 512) (λ i. buffer (done + i)) c) in
          let next : (o + c) % 2 ^ 32 ≡ o + c = omega (arith, most, fits) in
          let end : o + c + (size - (done + c)) ≡ o + (size - done) = omega (arith, most, below) in
          let place : done + c + (p - (o + c)) ≡ done + (c + (p - (o + c))) = omega arith in
          let ih =
            write_from_lem fuel disk' start buffer size (o + c) (done + c) p
              (omega (arith, some_, enough)) (omega (arith, most, fits)) l in
          ap (λ (r : (ℕ → ℕ → ℕ) × ℕ). file_byte r.0 start p) (if_true _ (disk, done) e)
          ∙ ap
              (λ (x : ℕ).
                file_byte (write_from disk' start buffer size x (done + c) fuel).0 start p)
              next
          ∙ ih
          ∙ ap
              (λ (x : ℕ).
                if leb (o + c) p && ltb p x
                then buffer (done + c + (p - (o + c)))
                else file_byte disk' start p)
              end
          ∙ ap₂ (λ (x y : ℕ). if leb (o + c) p && ltb p (o + (size - done)) then x else y)
              (ap buffer place)
              (write_chunk disk start buffer o (size - done) done p left (omega (arith, fits)) l)
          ∙ join (λ (k : ℕ). buffer (done + k)) (file_byte disk start p) c o (o + (size - done)) p
              some_ (omega (arith, most))
    ]

-- A write within ten sectors leaves all others.
pub write_from_other :
    (fuel : ℕ) (disk : ℕ → ℕ → ℕ) (start : ℕ) (buffer : ℕ → ℕ) (size o done s : ℕ)
    → o + (size - done) ≤ 5120
    → ((x : ℕ) → x < 10 → s ≢ (start + x) % 2 ^ 32)
    → (write_from disk start buffer size o done fuel).0 s ≡ disk s
unfolding write_from
write_from_other zero disk start buffer size o done s fits other = refl
write_from_other (suc fuel) disk start buffer size o done s fits other =
    if_cases (λ (r : (ℕ → ℕ → ℕ) × ℕ). r.0 s ≡ disk s) (ltb done size)
      (λ e.
        let below : done < size = ground (arith, e) in
        let left : 0 < size - done = omega (arith, below) in
        let c = chunk o (size - done) in
        let (some_, most, within) = chunk_lem o (size - done) left in
        let lba = (start + o / 512) % 2 ^ 32 in
        let old : ℕ → ℕ = if ltb 0 (o % 512) || ltb (size - done) 512 then disk lba else (λ i. 0) in
        let sector = copy_in old (o % 512) (λ i. buffer (done + i)) c in
        let away : (lba == s) ≡ false =
          ground (arith, other (o / 512) (omega (arith, fits, left))) in
        write_from_other fuel (update disk lba sector) start buffer size ((o + c) % 2 ^ 32)
          (done + c) s (omega (arith, most, fits)) other
        ∙ if_false sector (disk s) away)
      (λ e. refl)

-- The loops end, with all bytes read or written.
pub read_from_ends :
    (fuel : ℕ) (disk : ℕ → ℕ → ℕ) (start : ℕ) (m : ℕ → ℕ) (buffer size o done : ℕ)
    → done ≤ size
    → size ≤ done + fuel
    → (read_from disk start m buffer size o done fuel).1 ≡ size
unfolding read_from
read_from_ends zero disk start m buffer size o done h k = omega arith
read_from_ends (suc fuel) disk start m buffer size o done h k =
    let c = chunk o (size - done) in
    if_cases (λ (r : (ℕ → ℕ) × ℕ). r.1 ≡ size) (ltb done size)
      (λ e.
        let (some_, most, within) = chunk_lem o (size - done) (ground (arith, e)) in
        read_from_ends fuel disk start _ buffer size ((o + c) % 2 ^ 32) (done + c)
          (omega (arith, h, most)) (omega (arith, k, some_)))
      (λ e. ground arith)

pub write_from_ends :
    (fuel : ℕ) (disk : ℕ → ℕ → ℕ) (start : ℕ) (buffer : ℕ → ℕ) (size o done : ℕ)
    → done ≤ size
    → size ≤ done + fuel
    → (write_from disk start buffer size o done fuel).1 ≡ size
unfolding write_from
write_from_ends zero disk start buffer size o done h k = omega arith
write_from_ends (suc fuel) disk start buffer size o done h k =
    let c = chunk o (size - done) in
    if_cases (λ (r : (ℕ → ℕ → ℕ) × ℕ). r.1 ≡ size) (ltb done size)
      (λ e.
        let (some_, most, within) = chunk_lem o (size - done) (ground (arith, e)) in
        write_from_ends fuel _ start buffer size ((o + c) % 2 ^ 32) (done + c)
          (omega (arith, h, most)) (omega (arith, k, some_)))
      (λ e. ground arith)
