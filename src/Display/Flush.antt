-- ===== src/Display/Flush.antt =====
-- display_present: afterwards the screen shows what was drawn.
use zareboon_os.Prelude.{
  ℕ, ◌-◌, ◌<◌, ◌≤◌, ◌≡◌, refl, ap, ◌∙◌, sym, Bool, false, true, not, if◌then◌else◌, arith,
  Bool-cases, inl, inr, ◌⊎◌, leb, leb→le,
}
use zareboon_os.Fs.Device.{Bytes}
use zareboon_os.Video.Rows.{shown, in_range}
use zareboon_os.Display.{Display, present_rows, clear_dirty, display_present}
use zareboon_os.Display.Mirror.{pixel_of, Outside, IsMirror}
use zareboon_os.Display.Draw.{drawn}
use zareboon_os.Display.Present.{Copied, Shows, screen-IsFrame}
use zareboon_os.Display.Rows.{present_rows-Flushed}

-- The display after display_present: it keeps the invariant, no row is dirty, and the screen shows
-- what was drawn, which is as it was.
pub record Presented (s s' : Display) : Type 0 where
  pub invariant : IsMirror s'
  pub clean : s'.dirty_bottom ≤ s'.dirty_top
  pub caught_up : s'.full ≡ false
  pub on_screen :
      (x y : ℕ)
      → x < s.width
      → y < s.height
      → x < s.video.width
      → y < s.video.height
      → shown s'.video x y ≡ drawn s x y
  pub kept : (x y : ℕ) → x < s.width → y < s.height → drawn s' x y ≡ drawn s x y

-- The rows from `top` to `bottom` copied, when every other row was clean.
Copied-Presented :
    (top bottom : ℕ) (s : Display) (m : IsMirror s) (words : ℕ → ℕ) (memory : Bytes)
    → Copied
        (record s { full = false })
        m.mirror.buffers
        m.mirror.frame
        (in_range top (bottom - top))
        s.words
        s.video.memory
        words
        memory
    → ((y : ℕ)
        → y < s.height
        → (in_range top (bottom - top) y ≡ true)
          ⊎ ((in_range top (bottom - top) y ≡ false)
              × (s.full ≡ false)
              × Outside s.dirty_top s.dirty_bottom y))
    → Presented s (record s {
      full = false;
      words = words;
      video = record s.video { memory = memory };
      dirty_top = 0;
      dirty_bottom = 0;
    })
Copied-Presented top bottom s m words memory c cover = record {
  invariant = record {
    band = omega arith;
    mirror = record {
      active = m.mirror.active;
      buffers = m.mirror.buffers;
      frame = screen-IsFrame (record s { full = false }) m.mirror.buffers m.mirror.frame memory;
      words32 = c.words32 m.mirror.words32;
      synced = λ e x y hx hy o. c.back x y hx hy ∙ sym (fresh x y hx hy (cover y hy));
      mirrored = λ e x y hx hy vx vy.
          seen x y hx hy vx vy (cover y hy) ∙ sym (fresh x y hx hy (cover y hy));
    };
  };
  clean = omega arith;
  caught_up = refl;
  on_screen = λ x y hx hy vx vy. seen x y hx hy vx vy (cover y hy);
  kept = c.back;
}
  where
    fresh :
        (x y : ℕ)
        → x < s.width
        → y < s.height
        → (in_range top (bottom - top) y ≡ true)
          ⊎ ((in_range top (bottom - top) y ≡ false)
              × (s.full ≡ false)
              × Outside s.dirty_top s.dirty_bottom y)
        → pixel_of words s.front s.width x y ≡ drawn s x y
    fresh x y hx hy (inl e) = c.front x y hx hy ∙ rw e refl
    fresh x y hx hy (inr (e, full, out)) =
        c.front x y hx hy ∙ rw e (sym (m.mirror.synced full x y hx hy out))

    seen :
        (x y : ℕ)
        → x < s.width
        → y < s.height
        → x < s.video.width
        → y < s.video.height
        → (in_range top (bottom - top) y ≡ true)
          ⊎ ((in_range top (bottom - top) y ≡ false)
              × (s.full ≡ false)
              × Outside s.dirty_top s.dirty_bottom y)
        → shown (record s.video { memory = memory }) x y ≡ drawn s x y
    seen x y hx hy vx vy (inl e) = c.screen' x y hx hy vx vy ∙ rw e refl
    seen x y hx hy vx vy (inr (e, full, out)) =
        c.screen' x y hx hy vx vy
        ∙ rw e (m.mirror.mirrored full x y hx hy vx vy ∙ sym (m.mirror.synced full x y hx hy out))

abbrev body : Display → Display
body s =
    let top = if s.full then 0 else s.dirty_top in
    let bottom = if s.full then s.height else s.dirty_bottom in
    if leb bottom top
    then record s { full = false }
    else clear_dirty (present_rows (bottom - top) s.full top (record s { full = false }))

display_present-active : (s : Display) → s.active ≡ true → display_present s ≡ body s
unfolding display_present
display_present-active s e = ap (λ (t : Bool). if not t then s else body s) e

-- On an open display that keeps the invariant, display_present keeps it, leaves no row dirty, shows
-- every pixel that was drawn on the screen, as far as the screen goes, and changes no drawn pixel.
pub display_present-Presented : (s : Display) → IsMirror s → Presented s (display_present s)
display_present-Presented s m =
    let top = if s.full then 0 else s.dirty_top in
    let bottom = if s.full then s.height else s.dirty_bottom in
    let low : bottom ≤ s.height = ground (arith, m.band) in
    let s0 = record s { full = false } in
    rw (display_present-active s m.mirror.active) (elim (Bool-cases (leb bottom top)) [
      | inl e ↦ rw e (nothing (Bool-cases s.full) (leb→le _ _ e))
      | inr e ↦
          let shows : (s.full ≡ true)
              ⊎ Shows s0 m.mirror.buffers m.mirror.frame s.words s.video.memory =
            elim (Bool-cases s.full) [ inl t ↦ inl t | inr t ↦ inr (m.mirror.mirrored t) ] in
          let r =
            present_rows-Flushed s0 m.mirror.buffers m.mirror.frame (bottom - top) top s.full
              s.words s.video.memory shows m.mirror.words32 (ground arith) in
          rw (e, r.frame) (Copied-Presented top bottom s m _ _ r.copied (cover (Bool-cases s.full)))
    ])
  where
    cover :
        ((s.full ≡ true) ⊎ (s.full ≡ false))
        → (y : ℕ) → y < s.height
        → (in_range
              (if s.full then 0 else s.dirty_top)
              ((if s.full then s.height else s.dirty_bottom) - (if s.full then 0 else s.dirty_top))
              y
            ≡ true)
          ⊎ ((in_range
                  (if s.full then 0 else s.dirty_top)
                  ((if s.full then s.height else s.dirty_bottom)
                    - (if s.full then 0 else s.dirty_top))
                  y
                ≡ false)
              × (s.full ≡ false)
              × Outside s.dirty_top s.dirty_bottom y)
    cover (inl t) y hy = rw t (inl (ground arith))
    cover (inr t) y hy = rw t (ground arith)

    quiet :
        s.dirty_bottom ≤ s.dirty_top
        → ((x y : ℕ)
            → x < s.width
            → y < s.height
            → drawn s x y ≡ pixel_of s.words s.front s.width x y)
        → ((x y : ℕ)
            → x < s.width
            → y < s.height
            → x < s.video.width
            → y < s.video.height
            → shown s.video x y ≡ pixel_of s.words s.front s.width x y)
        → Presented s (record s { full = false })
    quiet empty same seen = record {
      invariant = record {
        band = m.band;
        mirror = record {
          active = m.mirror.active;
          buffers = m.mirror.buffers;
          frame = m.mirror.frame;
          words32 = m.mirror.words32;
          synced = λ e x y hx hy o. same x y hx hy;
          mirrored = λ e. seen;
        };
      };
      clean = empty;
      caught_up = refl;
      on_screen = λ x y hx hy vx vy. seen x y hx hy vx vy ∙ sym (same x y hx hy);
      kept = λ x y hx hy. refl;
    }

    nothing :
        ((s.full ≡ true) ⊎ (s.full ≡ false))
        → (if s.full then s.height else s.dirty_bottom) ≤ (if s.full then 0 else s.dirty_top)
        → Presented s (record s { full = false })
    nothing (inl t) none =
        let no_rows : s.height ≤ 0 = ground arith in
        quiet (omega (arith, m.band)) (λ x y hx hy. absurd (omega arith))
          (λ x y hx hy vx vy. absurd (omega arith))
    nothing (inr t) none =
        let empty : s.dirty_bottom ≤ s.dirty_top = ground arith in
        quiet empty (λ x y hx hy. m.mirror.synced t x y hx hy (omega arith)) (m.mirror.mirrored t)
