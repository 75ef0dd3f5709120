-- ===== src/Read/Malformed.antt =====
-- src/mp4_box_reader.c: what becomes of some files that the format does not allow, or that it allows
-- and the reader does not.
use libmp.Read.Children.{Env, is_root}
use libmp.Prelude.{
  ℕ, List, ◌<◌, ◌≡◌, ok, ◌^◌, true, ◌+◌, ◌∷◌, [], false, arith, ◌&&◌, ◌∙◌, bind-ok, Option, ◌≤◌,
  suc, some, ltb, Res, ◌==◌, fault, ap, if◌then◌else◌, guard-leb, einval, err, Bool-cases, inl, inr,
  length, leb, bind-err, refl, ◌>>=◌, ◌*◌,
}
use libmp.Read.{advance, Cursor, read_32, read_64}
use libmp.Read.Handler.{BoxType, box_type}
use libmp.Read.Holds.{Holds}
use libmp.Bytes.{words}
use libmp.Read.Each.{read_32-word}
use libmp.Read.Children.Loop.{children_read}
use libmp.Read.Headers.{RawFile, tkhd_read, version_of, read_time, check_version}
use libmp.Read.Children.Found.{read_head-words, later_box, read_size-zero, choose-yes, after-ok}
use libmp.Read.Tables.{RawTrack}
use libmp.Read.Entries.{Fits}
use native.Mathlib.Decide.{dec_lt}

-- A box of size 0 that is not the first one, which the format lets run to the end of the file, is
-- taken to be as long as the whole file: it passes for a truncated one and is left unread, with
-- the file as it was and the whole size returned.
pub children_read-zero_size :
    (fuel : ℕ) (e : Env) (path : List BoxType) (track : Option ℕ) (max_bytes : ℕ) (f : RawFile)
    (offset done kind : ℕ)
    → kind < 2 ^ 32
    → e.room offset ≡ true
    → done + e.size < 2 ^ 63
    → 0 < done
    → offset < e.size
    → done + 8 < max_bytes
    → max_bytes ≤ e.size
    → Holds e.pread offset (words (0 ∷ kind ∷ []))
    → children_read (suc fuel) e path track max_bytes f offset done false
      ≡ some (ok record { file = f; count = max_bytes; offset = offset + 4 + 4 })
unfolding children_read
children_read-zero_size fuel e path track max_bytes f offset done kind small room fits begun
      inside_file more whole h =
    let found =
      read_head-words e path max_bytes done false offset 0 kind [] _ _ (later_box (is_root path) _)
        room (omega arith) small h (read_size-zero e max_bytes done (box_type kind) _) fits in
    let loops : (ltb offset e.size && ltb (done + 8) max_bytes) ≡ true =
      ground (arith, inside_file, more) in
    let cut : ltb max_bytes (done + e.size) ≡ true = ground (arith, begun, whole) in
    choose-yes _ _ loops ∙ after-ok _ (ap some found) ∙ choose-yes _ _ cut

-- A reader finds what it wants in `k` of the words that the file holds from the cursor on, or fewer.
record Finds {ℓ} (A : Type ℓ) (k : ℕ) (pread : ℕ → ℕ → Res (List ℕ)) (r : Res (A × Cursor))
    (ws : List ℕ) : Type ℓ where
  value : A
  cursor : Cursor
  rest : List ℕ
  found : r ≡ ok (value, cursor)
  small : Fits rest
  near : length ws ≤ length rest + k
  ahead : Holds pread cursor.offset (words rest)

read_32-Finds :
    (pread : ℕ → ℕ → Res (List ℕ)) (c : Cursor) (ws : List ℕ)
    → Fits ws
    → 1 ≤ length ws
    → Holds pread c.offset (words ws)
    → Finds ℕ 1 pread (read_32 pread c) ws
unfolding advance
read_32-Finds pread c [] small some' h = absurd (omega arith)
read_32-Finds pread c (w ∷ ws) small some' h =
    let (found, h1) = read_32-word pread c w ws small.0 h in
    record {
      value = w;
      cursor = advance c 4;
      rest = ws;
      found = found;
      small = small.1;
      near = omega arith;
      ahead = h1;
    }

read_64-Finds :
    (pread : ℕ → ℕ → Res (List ℕ)) (c : Cursor) (ws : List ℕ)
    → Fits ws
    → 2 ≤ length ws
    → Holds pread c.offset (words ws)
    → Finds ℕ 2 pread (read_64 pread c) ws
unfolding read_64
read_64-Finds pread c ws small some' h =
    let hi = read_32-Finds pread c ws small (omega arith) h in
    let l = hi.near in
    let lo = read_32-Finds pread hi.cursor hi.rest hi.small (omega arith) hi.ahead in
    record {
      value = hi.value * 2 ^ 32 + lo.value;
      cursor = lo.cursor;
      rest = lo.rest;
      found = bind-ok _ hi.found ∙ bind-ok _ lo.found;
      small = lo.small;
      near = omega (arith, lo.near, l);
      ahead = lo.ahead;
    }

read_time-Finds :
    (version : ℕ) (pread : ℕ → ℕ → Res (List ℕ)) (c : Cursor) (ws : List ℕ)
    → Fits ws
    → 2 ≤ length ws
    → Holds pread c.offset (words ws)
    → Finds ℕ 2 pread (read_time version pread c) ws
read_time-Finds version pread c ws small some' h = elim (Bool-cases (version == 1)) [
  | inl p ↦ rw p (read_64-Finds pread c ws small some' h)
  | inr p ↦
      let one = read_32-Finds pread c ws small (omega arith) h in
      rw p record {
        value = one.value;
        cursor = one.cursor;
        rest = one.rest;
        found = one.found;
        small = one.small;
        near = omega (arith, one.near);
        ahead = one.ahead;
      }
]

after-Finds {ℓ κ} :
    {A : Type ℓ} {B : Type κ} {k : ℕ} {pread : ℕ → ℕ → Res (List ℕ)} {r : Res (A × Cursor)}
    {ws : List ℕ} {end' : Res B} (next : A × Cursor → Res B)
    → Finds A k pread r ws
    → ((a : A) (c : Cursor) (rest : List ℕ)
        → Fits rest
        → length ws ≤ length rest + k
        → Holds pread c.offset (words rest)
        → next (a, c) ≡ end')
    → (r >>= next) ≡ end'
after-Finds next f then' =
    bind-ok next f.found ∙ then' f.value f.cursor f.rest f.small f.near f.ahead

-- The least size of a track's header, which has longer times in version 1
abbrev pub least_size : ℕ → ℕ
least_size version = if version == 1 then 96 else 84

size-large :
    (version max_bytes : ℕ)
    → least_size version ≤ max_bytes
    → (84 ≤ max_bytes) × (check_version version max_bytes 96 ≡ ok tt)
size-large version max_bytes h = ground arith

size-small :
    (version max_bytes : ℕ)
    → 84 ≤ max_bytes
    → max_bytes < least_size version
    → check_version version max_bytes 96 ≡ err einval
size-small version max_bytes h short = ground arith

module _ (pread : ℕ → ℕ → Res (List ℕ)) (max_bytes : ℕ) (t : RawTrack) (c : Cursor) (head : ℕ)
    (ws : List ℕ) (small : Fits (head ∷ ws)) (long : 8 ≤ length ws)
    (h : Holds pread c.offset (words (head ∷ ws))) where
  no_movie-large :
      least_size (version_of head) ≤ max_bytes → tkhd_read pread 0 max_bytes t c ≡ fault
  unfolding tkhd_read advance
  no_movie-large large =
      let version = version_of head in
      let (enough, checked) = size-large version max_bytes large in
      let (e, h0) = read_32-word pread c head ws small.0 h in
      guard-leb 84 max_bytes einval _ enough
      ∙ bind-ok _ e
      ∙ bind-ok _ checked
      ∙ after-Finds _ (read_time-Finds version pread (advance c 4) ws small.1 (omega arith) h0)
          (λ _ c1 ws1 s1 l1 h1.
            after-Finds _ (read_time-Finds version pread c1 ws1 s1 (omega arith) h1)
              (λ _ c2 ws2 s2 l2 h2.
                after-Finds _ (read_32-Finds pread c2 ws2 s2 (omega arith) h2) (λ _ c3 ws3 s3 l3 h3.
                  after-Finds _ (read_32-Finds pread c3 ws3 s3 (omega arith) h3)
                    (λ _ c4 ws4 s4 l4 h4.
                      after-Finds _ (read_time-Finds version pread c4 ws4 s4 (omega arith) h4)
                        (λ _ _ _ _ _ _. refl)))))

  no_movie-small :
      max_bytes < least_size (version_of head) → tkhd_read pread 0 max_bytes t c ≡ err einval
  unfolding tkhd_read
  no_movie-small short = elim (dec_lt max_bytes 84) [
    | yes less ↦ let refused : leb 84 max_bytes ≡ false = ground arith in rw refused refl
    | no more ↦
        let (e, _) = read_32-word pread c head ws small.0 h in
        guard-leb 84 max_bytes einval _ (omega arith)
        ∙ bind-ok _ e
        ∙ bind-err _ (size-small (version_of head) max_bytes (omega arith) short)
  ]

  -- A track's header that stands before the header of the movie, when the timescale of the movie is
  -- still 0, is never read: in a file that holds the nine words that its fields up to the duration
  -- may take, a box that is too small for its version is refused with EINVAL, and any other box, of
  -- either version, makes the reader divide by 0.
  pub tkhd_read-no_movie :
      tkhd_read pread 0 max_bytes t c
      ≡ (if leb (least_size (version_of head)) max_bytes then fault else err einval)
  tkhd_read-no_movie = elim (dec_lt max_bytes (least_size (version_of head))) [
    | yes short ↦
        let refused : leb (least_size (version_of head)) max_bytes ≡ false = ground arith in
        rw refused (no_movie-small short)
    | no more ↦
        let taken : leb (least_size (version_of head)) max_bytes ≡ true = ground arith in
        rw taken (no_movie-large (omega arith))
  ]
