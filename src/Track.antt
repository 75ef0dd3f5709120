-- ===== src/Track.antt =====
-- src/mp4_track.c: a demuxed track, its sync samples and the search of a sample by time.
pub mod Valid
pub mod Spec
pub mod Sync
pub mod OneSided
pub mod Exact
pub mod Rounds
pub mod Closest
use libmp.Prelude.{
  ℕ, zero, suc, ◌+◌, ◌-◌, ◌^◌, Bool, true, false, List, Option, none, some, ltb, leb, ◌==◌,
  if◌then◌else◌, get_elem?, ℤ, pos, negsuc, ltb_ℤ, leb_ℤ, suc_ℤ, pred_ℤ, abs_diff, rounds, int32,
  int64, u32_of_int, sub32, Res, ok, err, fault, ◌>>=◌, einval, enoent,
}
use libmp.Types.{TrackType, TimeCmp, TimeToSampleEntry, SampleToChunkEntry}

-- `struct mp4_track`. An array is a list, the NULL `syncSampleEntries` is `none`, and a pointer
-- to a track is the address that `calloc` gave it.
pub record Track : Type 0 where
  pub addr : ℕ
  pub id : ℕ
  pub kind : TrackType
  pub timescale : ℕ
  pub duration : ℕ
  pub next_sample : ℕ
  pub pending_seek_time : ℕ
  pub sample_count : ℕ
  pub sample_size : List ℕ
  pub sample_decoding_time : List ℕ
  pub sample_offset : List ℕ
  pub chunk_count : ℕ
  pub chunk_offset : List ℕ
  pub time_to_sample_entries : List TimeToSampleEntry
  pub sample_to_chunk_entries : List SampleToChunkEntry
  pub sync_sample_entry_count : ℕ
  pub sync_sample_entries : Option (List ℕ)
  pub reference_type : ℕ
  pub reference_track_id : List ℕ
  pub metadata : Option ℕ
  pub chapters : Option ℕ

-- `a[i]`
unfoldable pub read_at {ℓ} : {A : Type ℓ} → List A → ℕ → Res A
read_at xs i = elim (get_elem? xs i) [ none ↦ fault | some a ↦ ok a ]

-- The loop of `mp4_track_is_sync_sample` from `i` on, `k` rounds before the end, with the entry
-- before `i`. The answer is the returned flag and what goes to `*prevSyncSampleIdx`, if anything.
unfoldable pub sync_loop : ℕ → List ℕ → ℕ → ℕ → Option ℕ → Res (Bool × Option ℕ)
sync_loop zero es i idx last = ok (false, last)
sync_loop (suc k) es i idx last = read_at es i >>= λ e.
    let rest = sync_loop k es (i + 1) idx (some (sub32 e 1)) in
    if sub32 e 1 == idx
    then ok (true, none)
    else if ltb idx (sub32 e 1)
    then ok (false, last)
    else rest

-- `mp4_track_is_sync_sample`; `sampleIdx` is an `unsigned int`.
unfoldable pub is_sync_sample : Track → ℕ → Res (Bool × Option ℕ)
is_sync_sample t idx = elim t.sync_sample_entries [
  | none ↦ ok (true, none)
  | some es ↦ sync_loop t.sync_sample_entry_count es 0 idx none
]

-- `is_sample_searchable`
unfoldable pub is_sample_searchable : Track → ℤ → Bool → Res Bool
is_sample_searchable t i false = ok true
is_sample_searchable t i true = is_sync_sample t (u32_of_int i) >>= λ r. ok r.0

-- `if (start >= (int)sampleCount) start = (int)sampleCount - 1;`
unfoldable pub clamp_end : Track → ℤ → ℤ
clamp_end t start =
    if leb_ℤ (int32 t.sample_count) start then pred_ℤ (int32 t.sample_count) else start

-- The same after `if (start < 0) start = 0;`
unfoldable pub clamp_start : Track → ℤ → ℤ
unfolding clamp_end
clamp_start t start = clamp_end t (if ltb_ℤ start (pos 0) then pos 0 else start)

pub exact_loop : ℕ → Track → ℕ → Bool → ℤ → Res ℕ
exact_loop zero t time sync i = err enoent
exact_loop (suc k) t time sync (negsuc i) = fault
exact_loop (suc k) t time sync (pos i) = read_at t.sample_decoding_time i >>= λ dt.
    let rest = exact_loop k t time sync (pos (i + 1)) in
    if dt == time
    then (is_sample_searchable t (pos i) sync >>= λ s. if s then ok i else rest)
    else if ltb time dt
    then err enoent
    else rest

-- `mp4_track_find_sample_by_time_exact`
pub find_sample_by_time_exact : Track → ℕ → Bool → ℤ → Res ℕ
unfolding clamp_start
find_sample_by_time_exact t time sync start =
    let i = clamp_start t start in exact_loop (rounds i (int32 t.sample_count)) t time sync i

-- `llabs((int64_t)a - (int64_t)b)`
unfoldable pub llabs_diff : ℕ → ℕ → Res ℕ
llabs_diff a b = let d = abs_diff (int64 a) (int64 b) in if ltb d (2 ^ 63) then ok d else fault

-- The variables of the loop of `mp4_track_find_sample_by_time_nearest`; `none` is `min_idx` -1.
pub record Nearest : Type 0 where
  pub min_idx : Option ℕ
  pub min_delta : ℕ
  pub prev_delta : ℕ

-- The loop body for an index that counts: the new variables, and whether to go on.
unfoldable pub nearest_step : Nearest → ℕ → ℕ → Nearest × Bool
nearest_step s i d =
    let s' = if ltb d s.min_delta then record s { min_idx = some i; min_delta = d } else s in
    if ltb s.prev_delta d then (s', false) else (record s' { prev_delta = d }, true)

unfoldable pub nearest_loop : ℕ → Track → ℕ → Bool → ℤ → Nearest → Res Nearest
nearest_loop zero t time sync i s = ok s
nearest_loop (suc k) t time sync (negsuc i) s =
    let rest = nearest_loop k t time sync (suc_ℤ (negsuc i)) s in
    is_sample_searchable t (negsuc i) sync >>= λ b. if b then fault else rest
nearest_loop (suc k) t time sync (pos i) s =
    let skip = nearest_loop k t time sync (pos (i + 1)) s in
    is_sample_searchable t (pos i) sync >>= λ b.
    if b
    then (read_at t.sample_decoding_time i >>= λ dt. llabs_diff time dt >>= λ d.
        let s' = nearest_step s i d in
        let rest = nearest_loop k t time sync (pos (i + 1)) s'.0 in if s'.1 then rest else ok s'.0)
    else skip

-- The loop's variables at the start: UINT64_MAX twice.
abbrev pub nearest_start : Nearest
nearest_start = record { min_idx = none; min_delta = 2 ^ 64 - 1; prev_delta = 2 ^ 64 - 1 }

-- `if (min_idx >= 0) return min_idx; return -ENOENT;`
abbrev pub index_found : Option ℕ → Res ℕ
index_found none = err enoent
index_found (some j) = ok j

-- `mp4_track_find_sample_by_time_nearest`
unfoldable pub find_sample_by_time_nearest : Track → ℕ → Bool → ℤ → Res ℕ
unfolding clamp_start
find_sample_by_time_nearest t time sync start =
    let i = clamp_start t start in
    nearest_loop (rounds i (int32 t.sample_count)) t time sync i nearest_start >>= λ s.
    elim s.min_idx [ none ↦ err enoent | some j ↦ ok j ]

-- `check_cmp` of the two one-sided searches
unfoldable pub check_lt : Track → ℕ → TimeCmp → ℕ → Res Bool
check_lt t time TimeCmp.lt i = read_at t.sample_decoding_time i >>= λ dt. ok (ltb dt time)
check_lt t time TimeCmp.lt_eq i = read_at t.sample_decoding_time i >>= λ dt. ok (leb dt time)
check_lt t time cmp i = ok false

unfoldable pub check_gt : Track → ℕ → TimeCmp → ℤ → Res Bool
check_gt t time TimeCmp.gt (pos i) = read_at t.sample_decoding_time i >>= λ dt. ok (ltb time dt)
check_gt t time TimeCmp.gt_eq (pos i) = read_at t.sample_decoding_time i >>= λ dt. ok (leb time dt)
check_gt t time TimeCmp.gt (negsuc i) = fault
check_gt t time TimeCmp.gt_eq (negsuc i) = fault
check_gt t time cmp i = ok false

-- The downward loop, at the number of indices left: it looks at `n` first, then below.
unfoldable pub lt_loop : ℕ → Track → ℕ → TimeCmp → Bool → Res ℕ
lt_loop zero t time cmp sync = err enoent
lt_loop (suc n) t time cmp sync =
    let rest = lt_loop n t time cmp sync in
    check_lt t time cmp n >>= λ c.
    if c then (is_sample_searchable t (pos n) sync >>= λ s. if s then ok n else rest) else rest

-- `mp4_track_find_sample_by_time_lt`
unfoldable pub find_sample_by_time_lt : Track → ℕ → TimeCmp → Bool → ℤ → Res ℕ
unfolding clamp_end
find_sample_by_time_lt t time cmp sync start =
    let from = clamp_end t (if ltb_ℤ start (pos 0) then pred_ℤ (int32 t.sample_count) else start) in
    elim from [ pos i ↦ lt_loop (suc i) t time cmp sync | negsuc i ↦ err enoent ]

unfoldable pub gt_loop : ℕ → Track → ℕ → TimeCmp → Bool → ℤ → Res ℕ
gt_loop zero t time cmp sync i = err enoent
gt_loop (suc k) t time cmp sync (negsuc i) =
    let rest = gt_loop k t time cmp sync (suc_ℤ (negsuc i)) in
    check_gt t time cmp (negsuc i) >>= λ c. if c then fault else rest
gt_loop (suc k) t time cmp sync (pos i) =
    let rest = gt_loop k t time cmp sync (pos (i + 1)) in
    check_gt t time cmp (pos i) >>= λ c.
    if c then (is_sample_searchable t (pos i) sync >>= λ s. if s then ok i else rest) else rest

-- `mp4_track_find_sample_by_time_gt`
unfoldable pub find_sample_by_time_gt : Track → ℕ → TimeCmp → Bool → ℤ → Res ℕ
unfolding clamp_start
find_sample_by_time_gt t time cmp sync start =
    let i = clamp_start t start in gt_loop (rounds i (int32 t.sample_count)) t time cmp sync i

-- `mp4_track_find_sample_by_time`
unfoldable pub find_sample_by_time : Track → ℕ → TimeCmp → Bool → ℤ → Res ℕ
find_sample_by_time t time TimeCmp.exact sync start = find_sample_by_time_exact t time sync start
find_sample_by_time t time TimeCmp.nearest sync start =
    find_sample_by_time_nearest t time sync start
find_sample_by_time t time TimeCmp.lt sync start =
    find_sample_by_time_lt t time TimeCmp.lt sync start
find_sample_by_time t time TimeCmp.lt_eq sync start =
    find_sample_by_time_lt t time TimeCmp.lt_eq sync start
find_sample_by_time t time TimeCmp.gt sync start =
    find_sample_by_time_gt t time TimeCmp.gt sync start
find_sample_by_time t time TimeCmp.gt_eq sync start =
    find_sample_by_time_gt t time TimeCmp.gt_eq sync start
find_sample_by_time t time TimeCmp.other sync start = err einval
