-- ===== src/Track/Valid.antt =====
-- A track whose arrays hold what its counts say, as `mp4_tracks_build` leaves it.
use libmp.Prelude.{
  ℕ, zero, suc, ◌+◌, ◌^◌, ◌≤◌, ◌<◌, ◌≡◌, refl, arith, Bool, true, false, Option, none, some, List,
  [], ◌∷◌, length, get_or, ltb, ◌==◌, if◌then◌else◌, ℤ, pos, negsuc, ltb_ℤ, pred_ℤ, int32, rounds,
  ◌-◌, lt→ltb, u32_of_int, sub32, ok,
}
use Prim.Native.Nat.{min}
use libmp.Track.{
  Track, read_at, sync_loop, is_sync_sample, is_sample_searchable, clamp_end, clamp_start,
}

abbrev pub SyncFits : ℕ → Option (List ℕ) → Type 0
SyncFits n none = Unit
SyncFits n (some es) = n ≤ length es

pub record IsValid (t : Track) : Type 0 where
  pub few : t.sample_count < 2 ^ 31
  pub nonempty : 0 < t.sample_count
  pub timed : length t.sample_decoding_time ≡ t.sample_count
  pub synced : SyncFits t.sync_sample_entry_count t.sync_sample_entries

-- The decoding time of sample `i`.
abbrev pub time_at : Track → ℕ → ℕ
time_at t i = get_or t.sample_decoding_time i 0

-- The decoding times do not fall, and fit an int64_t.
pub record IsOrdered (t : Track) : Type 0 where
  pub rising : (i j : ℕ) → i ≤ j → j < t.sample_count → time_at t i ≤ time_at t j
  pub small : (i : ℕ) → i < t.sample_count → time_at t i < 2 ^ 63

pub read_at-in {ℓ} :
    {A : Type ℓ} (xs : List A) (i : ℕ) (d : A) → i < length xs → read_at xs i ≡ ok (get_or xs i d)
unfolding read_at
read_at-in [] i d h = absurd (omega arith)
read_at-in (x ∷ xs) zero d h = refl
read_at-in (x ∷ xs) (suc i) d h = read_at-in xs i d (omega arith)

sync_loop_total :
    (k : ℕ) (es : List ℕ) (i idx : ℕ) (last : Option ℕ)
    → i + k ≤ length es
    → (r : Bool × Option ℕ) × (sync_loop k es i idx last ≡ ok r)
unfolding sync_loop
sync_loop_total zero es i idx last h = ((false, last), refl)
sync_loop_total (suc k) es i idx last h =
    let (r, e) = sync_loop_total k es (i + 1) idx (some (sub32 (get_or es i 0) 1)) (omega arith) in
    let read = read_at-in es i 0 (omega arith) in
    let here : Bool × Option ℕ =
      if sub32 (get_or es i 0) 1 == idx
      then (true, none)
      else if ltb idx (sub32 (get_or es i 0) 1)
      then (false, last)
      else r in
    (here, rw (read, e) (ground arith))

-- `mp4_track_is_sync_sample` reads no entry out of range.
pub is_sync_sample_total :
    (t : Track) (idx : ℕ)
    → SyncFits t.sync_sample_entry_count t.sync_sample_entries
    → (r : Bool × Option ℕ) × (is_sync_sample t idx ≡ ok r)
unfolding is_sync_sample
is_sync_sample_total t idx h = go t.sync_sample_entries h
  where
    go :
        (o : Option (List ℕ))
        → SyncFits t.sync_sample_entry_count o
        → (r : Bool × Option ℕ) × (elim o [
          | none ↦ ok (true, none)
          | some es ↦ sync_loop t.sync_sample_entry_count es 0 idx none
        ]
            ≡ ok r)
    go none h = ((true, none), refl)
    go (some es) h = sync_loop_total t.sync_sample_entry_count es 0 idx none (omega arith)

-- Whether a search that wants a sync sample (or does not) may return sample `i`.
abbrev pub Searchable : Track → Bool → ℕ → Type 0
Searchable t sync i = is_sample_searchable t (pos i) sync ≡ ok true

pub searchable_total :
    (t : Track) (i : ℤ) (sync : Bool)
    → SyncFits t.sync_sample_entry_count t.sync_sample_entries
    → (b : Bool) × (is_sample_searchable t i sync ≡ ok b)
unfolding is_sample_searchable
searchable_total t i false h = (true, refl)
searchable_total t i true h = let (r, e) = is_sync_sample_total t (u32_of_int i) h in (r.0, rw e)

-- Where an upward search from `start` begins, and where a downward one does.
abbrev pub first_index : Track → ℤ → ℕ
first_index t (pos n) = min n (t.sample_count - 1)
first_index t (negsuc n) = 0

abbrev pub last_index : Track → ℤ → ℕ
last_index t (pos n) = min n (t.sample_count - 1)
last_index t (negsuc n) = t.sample_count - 1

pub first_index-lt : (t : Track) (start : ℤ) → IsValid t → first_index t start < t.sample_count
first_index-lt t (pos n) v = omega arith
first_index-lt t (negsuc n) v = omega arith

pub last_index-lt : (t : Track) (start : ℤ) → IsValid t → last_index t start < t.sample_count
last_index-lt t (pos n) v = omega arith
last_index-lt t (negsuc n) v = omega arith

pub int32-count : (t : Track) → IsValid t → int32 t.sample_count ≡ pos t.sample_count
int32-count t v = rw (lt→ltb t.sample_count (2 ^ 31) v.few)

pub clamp_start-valid :
    (t : Track) (start : ℤ) → IsValid t → clamp_start t start ≡ pos (first_index t start)
unfolding clamp_start
clamp_start-valid t (pos n) v = ground (arith, int32-count t v)
clamp_start-valid t (negsuc n) v = ground (arith, int32-count t v)

pub clamp_end-valid :
    (t : Track) (start : ℤ)
    → IsValid t
    → clamp_end t (if ltb_ℤ start (pos 0) then pred_ℤ (int32 t.sample_count) else start)
      ≡ pos (last_index t start)
unfolding clamp_end
clamp_end-valid t (pos n) v = ground (arith, int32-count t v)
clamp_end-valid t (negsuc n) v = ground (arith, int32-count t v)

pub rounds-valid :
    (t : Track) (i : ℕ)
    → IsValid t
    → i < t.sample_count
    → rounds (pos i) (int32 t.sample_count) ≡ t.sample_count - i
rounds-valid t i v h = rw (int32-count t v) (omega arith)
