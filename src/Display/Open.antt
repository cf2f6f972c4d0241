-- ===== src/Display/Open.antt =====
-- display_open and display_close: the buffers that the heap gives, and the invariant at the start.
use zareboon_os.Prelude.{
  ℕ, ◌+◌, ◌-◌, ◌*◌, ◌%◌, ◌/◌, ◌^◌, ◌<◌, ◌≤◌, ◌≡◌, ◌≢◌, refl, ap, false, true, not, ◌||◌, ◌&&◌, ◌==◌,
  arith, Bool-cases, inl, inr, ◌⊎◌, leb, ltb, List, [], ◌∷◌,
}
use zareboon_os.Heap.{Block, clear_bit, is_free, kmalloc, header_size}
use zareboon_os.Heap.Chain.{Tiles, kmalloc-Tiles}
use zareboon_os.Heap.Alloc.{inside, held, Gives, kmalloc-Gives}
use zareboon_os.Video.Rows.{IsFrame}
use zareboon_os.Display.{Display, display_max_pixels, opened, display_open}
use zareboon_os.Display.Buffers.{Words32, zero_words-Words32}
use zareboon_os.Display.Mirror.{AreBuffers, IsMirror}
use zareboon_os.Display.Draw.{rows_le}

Tiles-le : (bs : List Block) (a e : ℕ) → Tiles a bs e → a ≤ e
Tiles-le [] a e t = omega arith
Tiles-le (b ∷ bs) a e (t0, t1, t2) =
    omega (arith, Tiles-le bs (a + header_size + clear_bit b.size) e t2)

-- Held memory lies below the end of the heap.
held-below : (bs : List Block) (a e x : ℕ) → Tiles a bs e → held bs x ≡ true → x < e
unfolding held
held-below [] a e x t h = cc
held-below (b ∷ bs) a e x (t0, t1, t2) h =
    let end = Tiles-le bs (a + header_size + clear_bit b.size) e t2 in
    elim (Bool-cases (not (is_free b) && inside b x)) [
      | inl i ↦ ground (arith, end)
      | inr i ↦ held-below bs (a + header_size + clear_bit b.size) e x t2 (rw i at h)
    ]

quotient_le : (n h : ℕ) → n / h * h ≤ n
quotient_le n h = grind arith

-- Two pieces of memory that kmalloc gave out one after the other do not overlap.
apart_lem :
    (n : ℕ) (heap heap1 heap2 : List Block) (p q : ℕ)
    → 0 < n
    → Gives n heap heap1 p
    → Gives n heap1 heap2 q
    → (p + n ≤ q) ⊎ (q + n ≤ p)
apart_lem n heap heap1 heap2 p q pos g k = elim (Bool-cases (leb q p)) [
  | inl e ↦ elim (Bool-cases (ltb p (q + n))) [
    | inl f ↦
        let taken = g.taken p (omega arith) (omega arith) in
        let fresh = k.fresh p (ground arith) (ground arith) in absurd cc
    | inr f ↦ inr (ground arith)
  ]
  | inr e ↦ elim (Bool-cases (ltb q (p + n))) [
    | inl f ↦
        let taken = g.taken q (ground arith) (ground arith) in
        let fresh = k.fresh q (omega arith) (omega arith) in absurd cc
    | inr f ↦ inl (ground arith)
  ]
]

-- What a successful display_open leaves: the invariant, a display of the size asked for, nothing on
-- the screen yet, and the console suspended by the first of the opens.
pub record Opened (width height : ℕ) (s s' : Display) : Type 0 where
  pub invariant : IsMirror s'
  pub wide : s'.width ≡ width
  pub high : s'.height ≡ height
  pub pending : s'.full ≡ true
  pub suspended : s.active ≡ false → s'.console_suspended ≡ true
  pub unresumed : s.active ≡ true → s'.console_suspended ≡ s.console_suspended
  pub screen : s'.video ≡ s.video

opened-Opened :
    (width height back front : ℕ) (heap : List Block) (s : Display)
    → AreBuffers back front width height
    → IsFrame s.video
    → Words32 s.words
    → Opened width height s (opened width height back front (record s { heap = heap }))
unfolding opened
opened-Opened width height back front heap s b f w = record {
  invariant = record {
    band = omega arith;
    mirror = record {
      active = refl;
      buffers = b;
      frame = f;
      words32 = zero_words-Words32 (width * height % 2 ^ 32) 0 back front s.words w;
      synced = λ e x y hx hy o. cc;
      mirrored = λ e x y hx hy vx vy. cc;
    };
  };
  wide = refl;
  high = refl;
  pending = refl;
  suspended = λ e. rw e refl;
  unresumed = λ e. rw e refl;
  screen = refl;
}

-- The two results of kmalloc, both given.
given_lem :
    (width height a e : ℕ) (h : List Block)
    → Tiles a h e
    → a % 4 ≡ 0
    → e ≤ 2 ^ 32
    → 0 < width
    → 0 < height
    → height * width ≤ 2 ^ 24
    → (kmalloc h (4 * (height * width))).1 ≢ 0
    → (kmalloc (kmalloc h (4 * (height * width))).0 (4 * (height * width))).1 ≢ 0
    → AreBuffers
        (kmalloc h (4 * (height * width))).1
        (kmalloc (kmalloc h (4 * (height * width))).0 (4 * (height * width))).1
        width
        height
given_lem width height a e h t a4 top pw ph small p0 q0 =
    let n = 4 * (height * width) in
    let h1 = (kmalloc h n).0 in
    let h2 = (kmalloc h1 n).0 in
    let p = (kmalloc h n).1 in
    let q = (kmalloc h1 n).1 in
    let t1 = kmalloc-Tiles h n a e t in
    let t2 = kmalloc-Tiles h1 n a e t1 in
    let area = rows_le 1 height width (omega arith) in
    let pos : 0 < n = omega (arith, area) in
    let g : Gives n h h1 p = given (kmalloc-Gives h n a e t a4 pos (omega arith)) p0 in
    let k : Gives n h1 h2 q = given (kmalloc-Gives h1 n a e t1 a4 pos (omega arith)) q0 in
    let in_p = held-below h1 a e (p + n - 1) t1 (g.taken (p + n - 1) (omega arith) (omega arith)) in
    let in_q = held-below h2 a e (q + n - 1) t2 (k.taken (q + n - 1) (omega arith) (omega arith)) in
    record {
      wide = pw;
      small = small;
      back_fits = omega arith;
      front_fits = omega arith;
      apart = apart_lem n h h1 h2 p q pos g k;
    }
  where
    given :
        {n : ℕ} {h : List Block} {r : List Block × ℕ} {A B : Type 0}
        → (A × Gives n h r.0 r.1) ⊎ (B × (r ≡ (h, 0)))
        → r.1 ≢ 0
        → Gives n h r.0 r.1
    given (inl (x, g)) ne = g
    given (inr (x, e)) ne = absurd (ne (ap (λ z. z.1) e))

-- On a tiled heap that ends below 2 ^ 32, with a frame buffer of 32 bits a pixel, when display_open
-- answers true the display is open in the size asked for, keeps the invariant, with two buffers that
-- do not overlap. It has suspended the console if the display was not open before, and leaves the
-- console suspended or not, as it was, if the display was open.
pub display_open-Opened :
    (width height a e : ℕ) (s : Display)
    → Tiles a s.heap e
    → a % 4 ≡ 0
    → e ≤ 2 ^ 32
    → IsFrame s.video
    → Words32 s.words
    → (display_open width height s).0 ≡ true
    → Opened width height s (display_open width height s).1
unfolding display_open
display_open-Opened width height a e s t a4 top f w ok =
    elim (Bool-cases ((width == 0) || (height == 0))) [
      | inl c ↦ let refused : false ≡ true = rw c at ok in absurd cc
      | inr c ↦ elim (Bool-cases (ltb (display_max_pixels / height) width)) [
        | inl c1 ↦ let refused : false ≡ true = rw (c, c1) at ok in absurd cc
        | inr c1 ↦
            let q = quotient_le (2 ^ 24) height in
            let r = rows_le width (2 ^ 24 / height) height (ground arith) in
            let small : height * width ≤ 2 ^ 24 = grind arith in
            let n = 4 * (height * width) in
            let bytes : width * height % 2 ^ 32 * 4 % 2 ^ 32 ≡ n = grind arith in
            elim (Bool-cases ((kmalloc s.heap n).1 == 0)) [
              | inl c2 ↦ let refused : false ≡ true = rw (c, c1, bytes, c2) at ok in absurd cc
              | inr c2 ↦ elim (Bool-cases ((kmalloc (kmalloc s.heap n).0 n).1 == 0)) [
                | inl c3 ↦ let refused : false ≡ true = rw (c, c1, bytes, c2, c3) at ok in absurd cc
                | inr c3 ↦
                    let b =
                      given_lem width height a e s.heap t a4 top (ground arith) (ground arith) small
                        (ground arith) (ground arith) in
                    rw (c, c1, bytes, c2, c3) (opened-Opened width height _ _ _ s b f w)
              ]
            ]
      ]
    ]
