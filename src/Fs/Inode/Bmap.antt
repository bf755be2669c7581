-- ===== src/Fs/Inode/Bmap.antt =====
-- bmap of kernel/fs.c: the block at a place of the file, with no byte of the file changed.
pub mod Growth
use mathlib.Core.Bool.{true≢false}
use oslab.Prelude.{
  ℕ, ◌+◌, ◌-◌, ◌*◌, ◌≤◌, ◌<◌, ◌≡◌, ◌≢◌, ◌⊎◌, inl, inr, refl, sym, ap, ◌∙◌, true, false, arith, ◌==◌,
  ltb, ℕ_discrete, Bool-cases, dec_lt,
}
use oslab.Prelude.Run.{done}
use oslab.Fs.{Fs, bsize, get_word}
use oslab.Fs.Alloc.{taken, balloc_lem}
use oslab.Fs.Alloc.Search.{block_free}
use oslab.Fs.Inode.{Inode, ndirect, nindirect, maxfile, load_addr, load_entry, bmap}
use oslab.Fs.Inode.Slots.{nth, byte_at, IsFile, Adds, Adds-IsFile, Adds-byte_at}
use oslab.Fs.Inode.Grow.{
  with_direct, direct-Adds, with_table, table-Adds, stored, stored-Adds, stored-at,
}
use oslab.Fs.Inode.Bmap.Growth.{Full, Grew, Grew-refl, Grew-trans, Adds-Grew}

-- What bmap returns: the block at place `k`, or 0, and then no block is free.
pub record Mapped (meta k a : ℕ) (ip ip' : Inode) (s s' : Fs) : Type 0 where
  pub grew : Grew meta ip ip' s s'
  pub at : nth ip' s' k ≡ a
  pub full : a ≡ 0 → Full s'

Adds-Mapped :
    (meta x k j : ℕ) (ip ip' : Inode) (s s' : Fs)
    → IsFile meta ip s
    → ((f : ℕ → ℕ) → record ip' { addrs = f } ≡ record ip { addrs = f })
    → nth ip' s' j ≡ x
    → Adds meta x k ip ip' s s'
    → Mapped meta j x ip ip' s s'
Adds-Mapped meta x k j ip ip' s s' v same at g = record {
  grew = Adds-Grew meta x k ip ip' s s' v same g;
  at = at;
  full = λ z. absurd (omega (arith, v.disk.meta_pos, g.above, z));
}

abbrev Loaded : ℕ → ℕ → Inode → Fs → ℕ × Inode × Fs → Type 0
Loaded meta k ip s r = Mapped meta k r.0 ip r.1 s r.2

module _ (meta : ℕ) (ip : Inode) (s : Fs) (v : IsFile meta ip s) where
  load_addr-direct : (k : ℕ) → k < ndirect → Loaded meta k ip s (load_addr k ip s)
  unfolding load_addr with_direct
  load_addr-direct k lt =
      let direct : ltb k ndirect ≡ true = ground arith in
      elim (ℕ_discrete (ip.addrs k) 0) [
        | no ne ↦
            let there : (ip.addrs k == 0) ≡ false = ground arith in
            rw there (record {
              grew = Grew-refl meta ip s v;
              at = rw direct refl;
              full = λ z. absurd (ne z);
            })
        | yes empty ↦
            let none_yet : (ip.addrs k == 0) ≡ true = ground arith in
            elim (balloc_lem meta s v.disk) [
              | inl (e, full) ↦
                  rw (none_yet, e)
                    (record {
                      grew = Grew-refl meta ip s v;
                      at = rw direct empty;
                      full = λ _. full;
                    })
              | inr (x, e, lo, hi, free, _) ↦
                  let made : (x == 0) ≡ false = ground (arith, v.disk.meta_pos) in
                  let self : (k == k) ≡ true = ground arith in
                  rw (none_yet, e, made)
                    (Adds-Mapped meta x k k ip (with_direct meta x ip s v lo hi free k lt empty) s
                      (taken x s) v (λ f. refl) (rw (direct, self) refl)
                      (direct-Adds meta x ip s v lo hi free k lt empty))
            ]
      ]

  -- the indirect block, and nothing else in its place
  load_addr-table :
      let r = load_addr ndirect ip s in
      Grew meta ip r.1 s r.2 × (r.1.addrs ndirect ≡ r.0) × (r.0 ≡ 0 → Full r.2)
  unfolding load_addr with_table
  load_addr-table = elim (ℕ_discrete (ip.addrs ndirect) 0) [
    | no ne ↦
        let there : (ip.addrs ndirect == 0) ≡ false = ground arith in
        rw there (Grew-refl meta ip s v, refl, λ z. absurd (ne z))
    | yes empty ↦
        let none_yet : (ip.addrs ndirect == 0) ≡ true = ground arith in
        elim (balloc_lem meta s v.disk) [
          | inl (e, full) ↦ rw (none_yet, e) (Grew-refl meta ip s v, empty, λ _. full)
          | inr (x, e, lo, hi, free, _) ↦
              let made : (x == 0) ≡ false = ground (arith, v.disk.meta_pos) in
              rw (none_yet, e, made)
                (
                  Adds-Grew meta x 0 ip (with_table meta x ip s v lo hi free empty) s (taken x s) v
                      (λ f. refl) (table-Adds meta x ip s v lo hi free empty),
                  refl,
                  λ z. absurd (omega (arith, v.disk.meta_pos, lo, z)),
                )
        ]
  ]

  load_entry_lem :
      (bn : ℕ)
      → bn < nindirect
      → ip.addrs ndirect ≢ 0
      → Loaded meta (ndirect + bn) ip s (load_entry (ip.addrs ndirect) bn ip s)
  unfolding load_entry stored
  load_entry_lem bn lt some_table =
      let indirect : ltb (ndirect + bn) ndirect ≡ false = ground arith in
      let place : ndirect + bn - ndirect ≡ bn = omega arith in
      let has_table : (ip.addrs ndirect == 0) ≡ false = ground arith in
      elim (ℕ_discrete (get_word (s.data_of (ip.addrs ndirect)) (4 * bn)) 0) [
        | no ne ↦
            let there : (get_word (s.data_of (ip.addrs ndirect)) (4 * bn) == 0) ≡ false =
              ground arith in
            rw there (record {
              grew = Grew-refl meta ip s v;
              at = rw (indirect, has_table, place) refl;
              full = λ z. absurd (ne z);
            })
        | yes empty ↦
            let none_yet : (get_word (s.data_of (ip.addrs ndirect)) (4 * bn) == 0) ≡ true =
              ground arith in
            elim (balloc_lem meta s v.disk) [
              | inl (e, full) ↦
                  rw (none_yet, e)
                    (record {
                      grew = Grew-refl meta ip s v;
                      at = rw (indirect, has_table, place) empty;
                      full = λ _. full;
                    })
              | inr (x, e, lo, hi, free, _) ↦
                  let made : (x == 0) ≡ false = ground (arith, v.disk.meta_pos) in
                  rw (none_yet, e, made)
                    (Adds-Mapped meta x (ndirect + bn) (ndirect + bn) ip ip s
                      (stored meta x ip s v lo hi free bn lt some_table empty) v (λ f. refl)
                      (stored-at meta x ip s v lo hi free bn lt some_table empty)
                      (stored-Adds meta x ip s v lo hi free bn lt some_table empty))
            ]
      ]

  load_entry-at :
      (k bn a : ℕ)
      → bn < nindirect
      → ip.addrs ndirect ≡ a
      → a ≢ 0
      → ndirect + bn ≡ k
      → Loaded meta k ip s (load_entry a bn ip s)
  load_entry-at k bn a lt at ne place = rw (← place, ← at) (load_entry_lem bn lt (rw at ne))

-- bmap of a place of the file returns the block that is there afterwards: the one that was there, or, if
-- there was none, one that was free; or it returns 0, and then the block is missing still and no block is
-- free. No byte of the file changes, nor any data block in use that is not the indirect block; a data block
-- is one from `meta` on, behind the bitmap.
pub bmap_lem :
    (meta : ℕ) (ip : Inode) (k : ℕ) (s : Fs)
    → IsFile meta ip s
    → k < maxfile
    → (a : ℕ) × (ip' : Inode) × (s' : Fs) × (bmap ip k s ≡ done (a, ip', s'))
      × Mapped meta k a ip ip' s s'
unfolding bmap
bmap_lem meta ip k s v lt = elim (dec_lt k ndirect) [
  | yes low ↦
      let direct : ltb k ndirect ≡ true = ground arith in
      let r = load_addr k ip s in
      (r.0, r.1, r.2, rw direct refl, load_addr-direct meta ip s v k low)
  | no high ↦
      let indirect : ltb k ndirect ≡ false = ground arith in
      let inside : ltb (k - ndirect) nindirect ≡ true = ground arith in
      let (grew, at, full) = load_addr-table meta ip s v in
      let l = load_addr ndirect ip s in
      elim (ℕ_discrete l.0 0) [
        | yes z ↦
            let none_yet : (l.0 == 0) ≡ true = ground arith in
            let no_table : (l.1.addrs ndirect == 0) ≡ true = ground arith in
            (
              0,
              l.1,
              l.2,
              rw (indirect, inside, none_yet) refl,
              record { grew = grew; at = rw (indirect, no_table) refl; full = λ _. full z },
            )
        | no ne ↦
            let there : (l.0 == 0) ≡ false = ground arith in
            let place : ndirect + (k - ndirect) ≡ k = omega arith in
            let found =
              load_entry-at meta l.1 l.2 grew.file k (k - ndirect) l.0 (omega arith) at ne place in
            let r = load_entry l.0 (k - ndirect) l.1 l.2 in
            (
              r.0,
              r.1,
              r.2,
              rw (indirect, inside, there) refl,
              record { grew = Grew-trans grew found.grew; at = found.at; full = found.full },
            )
      ]
]
