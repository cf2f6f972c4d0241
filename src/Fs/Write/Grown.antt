-- ===== src/Fs/Write/Grown.antt =====
-- A chain that grows by clusters that were free: what one new cluster adds, and what a run of them
-- leaves of the volume.
use zareboon_os.Prelude.{
  ℕ, ◌*◌, ◌<◌, ◌≡◌, ◌≢◌, refl, sym, ◌∙◌, true, false, ◌==◌, arith, Bool-cases, inl, inr, ◌⊎◌,
  ==_iff, List, [], ◌∷◌,
}
use zareboon_os.Fs.Device.{Bytes}
use zareboon_os.Fs.Volume.{Geometry}
use zareboon_os.Fs.Volume.Laws.{IsCluster, cluster_byte}
use zareboon_os.Fs.Fat.{is_data, no_cluster}
use zareboon_os.Fs.Fat.Laws.{fat_entry}
use zareboon_os.Fs.Fat.Chain.{Chain, NotIn, Distinct}
use zareboon_os.Fs.Write.Effects.{SameBytes}

pub NotIn-cases : (b : ℕ) (cs : List ℕ) → NotIn b cs ⊎ ¬ NotIn b cs
NotIn-cases b [] = inl tt
NotIn-cases b (c ∷ cs) = elim (Bool-cases (b == c)) [
  | inl e ↦ inr (λ (ne, n). ne ((==_iff _ _).0 e))
  | inr e ↦ elim (NotIn-cases b cs) [ inl n ↦ inl (ground arith, n) | inr n ↦ inr (λ (ne, m). n m) ]
]

-- From `disk` to `disk'` the chain that begins at `head` was built of the clusters listed, all of
-- them free before; no entry of another cluster changed but that of `prev`, and no byte of another
-- cluster.
pub record Grown (g : Geometry) (disk disk' : ℕ → Bytes) (prev head : ℕ) (cs : List ℕ)
    : Type 0 where
  pub chain : Chain g disk' head cs
  pub distinct : Distinct cs
  pub were_free : (b : ℕ) → IsCluster g b → ¬ NotIn b cs → fat_entry g disk b ≡ 0
  pub entries :
      (b : ℕ) → IsCluster g b → b ≢ prev → NotIn b cs → fat_entry g disk' b ≡ fat_entry g disk b
  pub bytes :
      (b i : ℕ)
      → IsCluster g b
      → NotIn b cs
      → i < g.sec_per_clus * 512
      → cluster_byte g disk' b i ≡ cluster_byte g disk b i

-- One round: the free cluster `c` became the end of the chain behind `prev` and was written.
pub record Linked (g : Geometry) (disk disk' : ℕ → Bytes) (prev c : ℕ) : Type 0 where
  pub is_new : IsCluster g c
  pub was_free : fat_entry g disk c ≡ 0
  pub ends : fat_entry g disk' c ≡ no_cluster
  pub follows : IsCluster g prev → fat_entry g disk' prev ≡ c
  pub apart : c ≢ prev
  pub others : (b : ℕ) → IsCluster g b → b ≢ c → b ≢ prev → fat_entry g disk' b ≡ fat_entry g disk b
  pub bytes : SameBytes g disk disk' c

module _ (g : Geometry) where
  pub Grown-nil :
      (disk : ℕ → Bytes) (prev head : ℕ) → is_data head ≡ false → Grown g disk disk prev head []
  Grown-nil disk prev head h = record {
    chain = h;
    distinct = tt;
    were_free = λ b k n. absurd (n tt);
    entries = λ b k ne n. refl;
    bytes = λ b i k n small. refl;
  }

  -- A cluster in use is none of those that were free.
  pub in_use-NotIn :
      (disk : ℕ → Bytes) (b : ℕ) (cs : List ℕ)
      → IsCluster g b
      → ((e : ℕ) → IsCluster g e → ¬ NotIn e cs → fat_entry g disk e ≡ 0)
      → fat_entry g disk b ≢ 0
      → NotIn b cs
  in_use-NotIn disk b cs k free used = elim (NotIn-cases b cs) [
    | inl n ↦ n
    | inr n ↦ absurd (used (free b k n))
  ]

  pub Grown-cons :
      (disk disk1 disk' : ℕ → Bytes) (prev c : ℕ) (cs : List ℕ)
      → is_data c ≡ true
      → Linked g disk disk1 prev c
      → Grown g disk1 disk' c (fat_entry g disk' c) cs
      → Grown g disk disk' prev c (c ∷ cs)
  Grown-cons disk disk1 disk' prev c cs t l w =
      let fresh : NotIn c cs =
        in_use-NotIn disk1 c cs l.is_new w.were_free (λ e. absurd (omega (arith, l.ends))) in
      record {
        chain = (refl, l.is_new, t, w.chain);
        distinct = (fresh, w.distinct);
        were_free = λ b k n. elim (Bool-cases (b == c)) [
          | inl e ↦ let at : b ≡ c = (==_iff _ _).0 e in rw at l.was_free
          | inr e ↦ free_before b k (ground arith) (λ m. n (ground arith, m))
        ];
        entries = λ b k ne (nc, n). w.entries b k nc n ∙ l.others b k nc ne;
        bytes = λ b i k (nc, n) small. w.bytes b i k n small ∙ l.bytes b i k nc small;
      }
    where
      free_before : (b : ℕ) → IsCluster g b → b ≢ c → ¬ NotIn b cs → fat_entry g disk b ≡ 0
      free_before b k ne n = elim (Bool-cases (b == prev)) [
        | inl e ↦
            let at : b ≡ prev = (==_iff _ _).0 e in
            let follows : fat_entry g disk1 b ≡ c = rw at (l.follows (rw (← at) k)) in
            absurd (omega (arith, w.were_free b k n, follows, l.is_new))
        | inr e ↦ sym (l.others b k ne (ground arith)) ∙ w.were_free b k n
      ]

  -- The entry of the cluster in front of the new ones, in the end.
  pub Grown-head :
      (disk disk1 disk' : ℕ → Bytes) (prev c : ℕ) (cs : List ℕ)
      → IsCluster g prev
      → Linked g disk disk1 prev c
      → Grown g disk1 disk' c (fat_entry g disk' c) cs
      → fat_entry g disk' prev ≡ c
  Grown-head disk disk1 disk' prev c cs k l w =
      w.entries prev k (λ e. l.apart (sym e))
        (in_use-NotIn disk1 prev cs k w.were_free
          (λ e. absurd (omega (arith, l.follows k, l.is_new))))
      ∙ l.follows k
