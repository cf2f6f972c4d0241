-- ===== src/Fs/Write/Written.antt =====
-- fs_write_file once its entry stands empty: the file that is then on the volume.
use mathlib.Core.Path.{subst}
use zareboon_os.Prelude.{
  ℕ, zero, suc, ◌+◌, ◌-◌, ◌*◌, ◌/◌, ◌%◌, ◌^◌, ◌<◌, ◌≤◌, ◌≡◌, ◌≢◌, refl, ap, sym, ◌∙◌, Option, none,
  some, arith, ltb, Bool-cases, inl, inr, ◌⊎◌, ltb→lt, ==_iff, ◌==◌, List, [], ◌∷◌, length,
}
use zareboon_os.Fs.Device.{SectorDevice, Bytes, IsReliable}
use zareboon_os.Fs.Volume.{Geometry, Fs, ◌>>=◌}
use zareboon_os.Fs.Volume.Laws.{IsVolume, IsCluster, cluster_byte, cluster_lba}
use zareboon_os.Fs.Fat.Laws.{fat_entry}
use zareboon_os.Fs.Fat.Chain.{Chain, NotIn, Freed, free_cluster_chain-Freed}
use zareboon_os.Fs.Entries.{Code, ok, nospace, entry_cluster, entry_size}
use zareboon_os.Fs.Read.Laws.{chain_byte, capacity}
use zareboon_os.Fs.Write.{Pos, alloc_loop, store_entry, finish_write, write_at}
use zareboon_os.Fs.Write.Effects.{SameBytes, cluster_below_marks}
use zareboon_os.Fs.Write.Grown.{NotIn-cases, Grown, Grown-nil, in_use-NotIn}
use zareboon_os.Fs.Write.Rounds.{alloc_loop-stop}
use zareboon_os.Fs.Write.Chains.{Begins, alloc_loop-Begins}
use zareboon_os.Fs.Write.Stored.{EntryStored, store_entry-EntryStored}

-- The entry at `pos` names a file of `n` bytes, those of `src`, in clusters that were free.
pub record FileStored (g : Geometry) (disk disk' : ℕ → Bytes) (pos : Pos) (src : Bytes) (n : ℕ)
    : Type 0 where
  pub clusters : List ℕ
  pub chain : Chain g disk' (entry_cluster (cluster_byte g disk' pos.clus) pos.idx) clusters
  pub few : length clusters ≤ n
  pub size : entry_size (cluster_byte g disk' pos.clus) pos.idx ≡ n
  pub room : n ≤ capacity g clusters
  pub bytes : (i : ℕ) → i < n → chain_byte g disk' clusters i ≡ src i
  pub were_free : (b : ℕ) → IsCluster g b → ¬ NotIn b clusters → fat_entry g disk b ≡ 0
  pub entries :
      (b : ℕ) → IsCluster g b → NotIn b clusters → fat_entry g disk' b ≡ fat_entry g disk b

-- No byte of a cluster in use changed but those of the entry at `pos`.
abbrev pub KeptBytes : Geometry → (ℕ → Bytes) → (ℕ → Bytes) → Pos → Type 0
KeptBytes g disk disk' pos =
    (b i : ℕ)
    → IsCluster g b
    → fat_entry g disk b ≢ 0
    → i < g.sec_per_clus * 512
    → (b ≢ pos.clus) ⊎ ((i < pos.idx * 32) ⊎ (pos.idx * 32 + 32 ≤ i))
    → cluster_byte g disk' b i ≡ cluster_byte g disk b i

Chain-agree_all :
    (g : Geometry) (disk disk' : ℕ → Bytes) (c : ℕ) (cs : List ℕ)
    → ((b : ℕ) → IsCluster g b → fat_entry g disk' b ≡ fat_entry g disk b)
    → Chain g disk c cs
    → Chain g disk' c cs
Chain-agree_all g disk disk' c [] same h = h
Chain-agree_all g disk disk' c (b ∷ bs) same (e, k, t, rest) =
    (e, k, t, rw (same c k) (Chain-agree_all g disk disk' (fat_entry g disk c) bs same rest))

chain_byte_ext :
    (g : Geometry) (disk disk' : ℕ → Bytes) (a c : ℕ) (cs : List ℕ) (i : ℕ)
    → SameBytes g disk disk' a
    → NotIn a cs
    → Chain g disk c cs
    → chain_byte g disk' cs i ≡ chain_byte g disk cs i
chain_byte_ext g disk disk' a c [] i same n h = refl
chain_byte_ext g disk disk' a c (b ∷ bs) i same (n, ns) (e, k, t, rest) =
    elim (Bool-cases (ltb i (g.sec_per_clus * 512))) [
      | inl h ↦ rw h (same b i (rw e k) (λ q. n (sym q)) (ltb→lt _ _ h))
      | inr h ↦ rw h (
          chain_byte_ext g disk disk' a (fat_entry g disk c) bs (i - g.sec_per_clus * 512) same ns
            rest)
    ]

module _ (d : SectorDevice) (size : ℕ) (content : d.Dev → ℕ → Bytes)
    (rel : IsReliable d size content) where
  -- How the write of a file ends.
  abbrev pub Written : Geometry → (ℕ → Bytes) → Pos → Bytes → ℕ → Option (Code × Fs d) → Type 0
  Written g disk pos src n none = ⊥
  Written g disk pos src n (some (r, s)) =
      (s.geo ≡ g)
      × KeptBytes g disk (content s.dev) pos
      × (((r ≡ ok) × FileStored g disk (content s.dev) pos src n)
          ⊎ ((r ≡ nospace)
              × ((b : ℕ) → IsCluster g b → fat_entry g (content s.dev) b ≡ fat_entry g disk b)))

  write_at-run :
      (fuel n : ℕ) (pos : Pos) (src : Bytes) (s s1 : Fs d) (a : Code × ℕ)
      → alloc_loop d fuel 0 src 0 n 0 s ≡ some (a, s1)
      → write_at d fuel pos src n s ≡ finish_write d fuel pos n a s1
  unfolding write_at
  write_at-run fuel n pos src s s1 a e =
      ap (λ o. ((λ (_ : Fs d). o) >>= finish_write d fuel pos n) s) e

  -- The entry of the file, stored over the chain that was built.
  write_at-stored :
      (fuel n first : ℕ) (pos : Pos) (src : Bytes) (s s1 : Fs d) {g : Geometry} {disk : ℕ → Bytes}
      → IsVolume g size
      → IsCluster g pos.clus
      → fat_entry g disk pos.clus ≢ 0
      → pos.idx * 32 + 32 ≤ g.sec_per_clus * 512
      → n < 2 ^ 32
      → first < 2 ^ 32
      → alloc_loop d fuel 0 src 0 n 0 s ≡ some ((ok, first), s1)
      → s1.geo ≡ g
      → (cs : List ℕ) → Grown g disk (content s1.dev) 0 first cs
      → length cs ≤ n
      → n ≤ capacity g cs
      → ((i : ℕ) → i < n → chain_byte g (content s1.dev) cs i ≡ src i)
      → Written g disk pos src n (write_at d fuel pos src n s)
  unfolding finish_write
  write_at-stored fuel n first pos src s s1 {g} {disk} vol k used inside n32 f32 e p cs w few room
        bytes =
      let (t0, t1, t2) =
        store_entry-EntryStored d size content rel pos first n s1 vol p refl k inside f32 n32 in
      let fresh : NotIn pos.clus cs = in_use-NotIn g disk pos.clus cs k w.were_free used in
      let disk2 = content (store_entry d pos none first n s1).1.dev in
      rw (write_at-run fuel n pos src s s1 (ok, first) e, t0, finish_write)
        (
          t1,
          kept w t2,
          inl (
            refl,
            record {
              clusters = cs;
              chain =
                  rw t2.cluster
                    (Chain-agree_all g (content s1.dev) disk2 first cs t2.entries w.chain);
              few = few;
              size = t2.length;
              room = room;
              bytes = λ i h.
                  chain_byte_ext g (content s1.dev) disk2 pos.clus first cs i t2.bytes fresh w.chain
                  ∙ bytes i h;
              were_free = w.were_free;
              entries = λ b kb nc. t2.entries b kb ∙ w.entries b kb (omega (arith, kb)) nc;
            },
          ),
        )
    where
      kept :
          Grown g disk (content s1.dev) 0 first cs
          → EntryStored g
              (content s1.dev)
              (content (store_entry d pos none first n s1).1.dev)
              pos
              first
              n
          → KeptBytes g disk (content (store_entry d pos none first n s1).1.dev) pos
      kept w t b i kb ub small out =
          let fresh : NotIn b cs = in_use-NotIn g disk b cs kb w.were_free ub in
          let same = w.bytes b i kb fresh small in
          elim (Bool-cases (b == pos.clus)) [
            | inr ne ↦ t.bytes b i kb (ground arith) small ∙ same
            | inl e ↦
                let at : b ≡ pos.clus = (==_iff _ _).0 e in
                let there : (i < pos.idx * 32) ⊎ (pos.idx * 32 + 32 ≤ i) = elim out [
                  | inl ne ↦ absurd (ne at)
                  | inr o ↦ o
                ] in
                ap
                  (λ (c : ℕ).
                    cluster_byte g (content (store_entry d pos none first n s1).1.dev) c i)
                  at
                ∙ t.neighbours i small there
                ∙ ap (λ (c : ℕ). cluster_byte g (content s1.dev) c i) (sym at)
                ∙ same
          ]

  -- The new clusters, given back.
  Freed-Written :
      (g : Geometry) (disk disk1 : ℕ → Bytes) (pos : Pos) (src : Bytes) (n first : ℕ) (cs : List ℕ)
      → Grown g disk disk1 0 first cs
      → (o : Option (Unit {0} × Fs d)) → Freed d size content rel g disk1 cs o
      → (o' : Option (Code × Fs d))
      → o' ≡ elim o [ none ↦ none | some (u, s2) ↦ some (nospace, s2) ]
      → Written g disk pos src n o'
  Freed-Written g disk disk1 pos src n first cs w none h o' e = absurd h
  Freed-Written g disk disk1 pos src n first cs w (some (u, s2)) (f0, f1, f2, f3) o' e = rw e (
    f0,
    λ b i kb ub small out.
        f3 (cluster_lba g b + i / 512) (i % 512) (inr (omega arith)) (omega arith)
        ∙ w.bytes b i kb (in_use-NotIn g disk b cs kb w.were_free ub) small,
    inr (
      refl,
      λ b kb. elim (NotIn-cases b cs) [
        | inl nc ↦ f1 b kb nc ∙ w.entries b kb (omega (arith, kb)) nc
        | inr ic ↦ f2 b kb ic ∙ sym (w.were_free b kb ic)
      ],
    ),
  )

  write_at-freed :
      (fuel n first : ℕ) (pos : Pos) (src : Bytes) (s s1 : Fs d) {g : Geometry} {disk : ℕ → Bytes}
      → IsVolume g size
      → alloc_loop d fuel 0 src 0 n 0 s ≡ some ((nospace, first), s1)
      → s1.geo ≡ g
      → (cs : List ℕ) → Grown g disk (content s1.dev) 0 first cs
      → length cs < fuel
      → Written g disk pos src n (write_at d fuel pos src n s)
  unfolding finish_write
  write_at-freed fuel n first pos src s s1 {g} {disk} vol e p cs w few =
      rw (write_at-run fuel n pos src s s1 (nospace, first) e) (
        Freed-Written g disk (content s1.dev) pos src n first cs w _
          (free_cluster_chain-Freed d size content rel cs fuel first s1 vol p refl w.chain
            w.distinct few)
          _ refl)

  head_small :
      (g : Geometry) (disk : ℕ → Bytes) (n first : ℕ) (cs : List ℕ)
      → IsVolume g size
      → suc n ≤ capacity g cs
      → Chain g disk first cs
      → first < 2 ^ 32
  head_small g disk n first [] vol room h = absurd (omega arith)
  head_small g disk n first (c ∷ cs) vol room (e, k, t, rest) =
      let (below, d0) = cluster_below_marks d size content rel g first vol k in omega arith

  write_at-ended :
      (disk : ℕ → Bytes) (fuel n : ℕ) (pos : Pos) (src : Bytes) (s : Fs d) {g : Geometry}
      → IsVolume g size
      → IsCluster g pos.clus
      → fat_entry g disk pos.clus ≢ 0
      → pos.idx * 32 + 32 ≤ g.sec_per_clus * 512
      → suc n < 2 ^ 32
      → suc n < fuel
      → (o : Option ((Code × ℕ) × Fs d)) → alloc_loop d fuel 0 src 0 (suc n) 0 s ≡ o
      → Begins d size content rel g disk (suc n) src o
      → Written g disk pos src (suc n) (write_at d fuel pos src (suc n) s)
  write_at-ended disk fuel n pos src s vol k used inside n32 f none e h = absurd h
  write_at-ended disk fuel n pos src s {g} vol k used inside n32 f (some ((r, first), s1)) e
        (p, a) =
      elim a.ending [
        | inl (is_ok, room, bytes) ↦
            write_at-stored fuel (suc n) first pos src s s1 vol k used inside n32
              (head_small g (content s1.dev) n first a.clusters vol room a.grown.chain)
              (e ∙ ap (λ (c : Code). some ((c, first), s1)) is_ok) p a.clusters a.grown a.few room
              (λ i h. bytes i h ∙ ap src (omega arith))
        | inr (is_full, full) ↦
            write_at-freed fuel (suc n) first pos src s s1 vol
              (e ∙ ap (λ (c : Code). some ((c, first), s1)) is_full) p a.clusters a.grown
              (omega (arith, a.few))
      ]

  -- On a well-formed volume, of at most 32 sectors a cluster, and a working device, with more fuel
  -- than bytes, when the entry at `pos` lies in a cluster in use, the write of a file of `n` bytes,
  -- fewer than 2 ^ 32, ends. It answers FS_OK, and the entry
  -- then names a chain, of clusters that were free, that holds the bytes, and the file's size; or it
  -- answers FS_ERR_NOSPACE, and the entry of every cluster of the data area is, in the copy of the
  -- table that is read, as it was before. In both cases no byte of a cluster in use changes but those
  -- of the file's entry.
  pub write_at-Written :
      (fuel n : ℕ) (pos : Pos) (src : Bytes) (s : Fs d) {g : Geometry} {disk : ℕ → Bytes}
      → IsVolume g size
      → s.geo ≡ g
      → content s.dev ≡ disk
      → IsCluster g pos.clus
      → fat_entry g disk pos.clus ≢ 0
      → pos.idx * 32 + 32 ≤ g.sec_per_clus * 512
      → n < 2 ^ 32
      → n < fuel
      → Written g disk pos src n (write_at d fuel pos src n s)
  write_at-Written zero n pos src s vol p q k used inside n32 few = absurd (omega arith)
  write_at-Written (suc fuel) zero pos src s {g} {disk} vol p q k used inside n32 few =
      subst (λ (t : ℕ → Bytes). Written g t pos src 0 (write_at d (suc fuel) pos src 0 s)) q
        (write_at-stored (suc fuel) 0 0 pos src s s vol k (rw q used) inside n32 (omega arith)
          (alloc_loop-stop d size content rel fuel 0 0 0 src s) p []
          (Grown-nil g (content s.dev) 0 0 refl) (omega arith) (omega arith)
          (λ i h. absurd (omega arith)))
  write_at-Written (suc fuel) (suc n) pos src s vol p q k used inside n32 few =
      write_at-ended _ (suc fuel) n pos src s vol k used inside n32 few _ refl
        (alloc_loop-Begins d size content rel (suc fuel) (suc n) src s vol p q few)
