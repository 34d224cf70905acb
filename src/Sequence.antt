-- ===== src/Sequence.antt =====
-- src/request_sequence.rs: which request is sent next, and when. `none` is a panic, or a draw that has
-- used up its fuel.
pub mod Shuffle
pub mod Order
use Prim.Native.Nat.{bit_and, bit_or, bit_xor}
use rload.Prelude.{
  ℕ, zero, suc, ◌+◌, ◌-◌, ◌*◌, ◌/◌, ◌%◌, ◌^◌, ◌≤◌, ◌<◌, min, max, String, ◌≡◌, refl, sym, ap, ◌∙◌,
  subst, ◌≢◌, ◌↔◌, ◌⊎◌, inl, inr, Bool, true, false, not, ◌&&◌, ◌||◌, Option, none, some, List, [],
  ◌∷◌, ◌++◌, map, append-nil, append_assoc, arith, ltb, leb, ◌==◌, if◌then◌else◌, ltb→lt, lt→ltb,
  leb→le, le→leb, ltb_false→le, leb_false→lt, ==_iff, tests, Bool-cases, Option-cases, &&_true,
  or_sound, or_complete, Bytes, codes, length, get_elem?, set, take, drop, replicate, is_empty,
  length-append, length-take, length-drop, length-set, drop-get_some, drop-get_none, get_some-lt,
  get_none-le, lt-get_some, bytes_eq, bytes_eq_sound, bytes_eq_refl, All, All-get, Any, All-append,
  All-append_left, All-append_right, All-take, All-imp, All-both, Any-All, take-append, drop-append,
  drop-append_past, drop_all, u64_mod, u64_max, add64, add64_exact,
}
use rload.Prelude.Int.{ℤ}
use rload.Config.{Method, ReplayOrder, sequential, random, shuffle, ReplayStage, index, all_methods}
use rload.Pacer.{
  Pacer, TimestampPacer, StagePacer, new_pacer, new_timestamp_pacer, new_stage_pacer, reserve,
  reserve_timestamp, reserve_stage,
}
use rload.Engine.Outside.{NextRequest}

pub record EncodedRequest : Type 0 where
  pub bytes : Bytes
  pub method_uri_start : ℕ
  pub uri_end : ℕ
  pub timestamp_micros : Option ℤ

-- `((method.index() as u32) << 29) | uri_start as u32`
unfoldable pub method_uri_start : Method → (uri_start : ℕ) → ℕ
method_uri_start method uri_start = bit_or (index method * 2 ^ 29 % 2 ^ 32) (uri_start % 2 ^ 32)

-- `Method::ALL[(field >> 29) as usize]` and `field & 0x1fff_ffff`
unfoldable pub method_of : (field : ℕ) → Option Method
method_of field = get_elem? all_methods (field / 2 ^ 29)

unfoldable pub uri_start_of : (field : ℕ) → ℕ
uri_start_of field = bit_and field (2 ^ 29 - 1)

unfoldable pub splitmix64 : ℕ → ℕ
splitmix64 seed =
    let a = (seed + 0x9E37_79B9_7F4A_7C15) % u64_mod in
    let b = bit_xor a (a / 2 ^ 30) * 0xBF58_476D_1CE4_E5B9 % u64_mod in
    let c = bit_xor b (b / 2 ^ 27) * 0x94D0_49BB_1331_11EB % u64_mod in bit_xor c (c / 2 ^ 31)

-- `(bound as u64).wrapping_neg() % bound as u64`
unfoldable pub threshold : (bound : ℕ) → ℕ
threshold bound = (u64_mod - bound) % bound

-- Draws below the threshold are thrown away.
unfoldable pub bounded : (fuel value bound : ℕ) → Option ℕ
bounded zero value bound = none
bounded (suc fuel) value bound =
    let rest = bounded fuel (splitmix64 value) bound in
    if ltb value (threshold bound) then rest else some (value % bound)

pub record ShuffleState : Type 0 where
  pub indices : List ℕ
  pub offset : ℕ
  pub random_state : ℕ

-- `(first..first + count).collect()`
unfoldable pub range_from : (first count : ℕ) → List ℕ
range_from first zero = []
range_from first (suc count) = first ∷ range_from (first + 1) count

unfoldable pub new_shuffle : (length seed : ℕ) → ShuffleState
new_shuffle length seed = record { indices = range_from 0 length; offset = 0; random_state = seed }

-- `ShuffleState::bounded`: the draw, and the random state after it.
unfoldable pub draw : (fuel random_state bound : ℕ) → Option (ℕ × ℕ)
draw zero random_state bound = none
draw (suc fuel) random_state bound =
    let next = splitmix64 random_state in
    let rest = draw fuel next bound in
    if ltb next (threshold bound) then rest else some (next % bound, next)

-- `Vec::swap`; out of bounds it panics.
unfoldable pub swap : List ℕ → (i j : ℕ) → Option (List ℕ)
swap l i j = elim (get_elem? l i) [
  | none ↦ none
  | some a ↦ elim (get_elem? l j) [ none ↦ none | some b ↦ some (set (set l i b) j a) ]
]

-- The loop of `reshuffle` over the indices `count`, `count - 1`, ..., 1.
unfoldable pub shuffle_down : (fuel count : ℕ) → List ℕ → (random_state : ℕ) → Option (List ℕ × ℕ)
shuffle_down fuel zero l random_state = some (l, random_state)
shuffle_down fuel (suc count) l random_state = elim (draw fuel random_state (suc count + 1)) [
  | none ↦ none
  | some (selected, next) ↦ elim (swap l (suc count) selected) [
    | none ↦ none
    | some l' ↦ shuffle_down fuel count l' next
  ]
]

unfoldable pub reshuffle : (fuel : ℕ) → ShuffleState → Option ShuffleState
reshuffle fuel s = elim (shuffle_down fuel (length s.indices - 1) s.indices s.random_state) [
  | none ↦ none
  | some (l, next) ↦ some (record { indices = l; offset = 0; random_state = next })
]

unfoldable pub take_next : ShuffleState → Option (ℕ × ShuffleState)
take_next s = elim (get_elem? s.indices s.offset) [
  | none ↦ none
  | some i ↦ some (i, record s { offset = s.offset + 1 })
]

-- `ShuffleState::next`
unfoldable pub next_shuffled : (fuel : ℕ) → ShuffleState → Option (ℕ × ShuffleState)
next_shuffled fuel s =
    if s.offset == length s.indices
    then elim (reshuffle fuel s) [ none ↦ none | some s' ↦ take_next s' ]
    else take_next s

pub data Selection : Type 0 where
  in_turn : (next : ℕ) → Selection
  at_random : (next seed : ℕ) → Selection
  shuffled : ShuffleState → Selection

pub record RequestSequence : Type 0 where
  pub requests : List EncodedRequest
  pub selection : Selection
  pub pacer : Option Pacer
  pub timestamp_pacer : Option TimestampPacer
  pub timestamp_cursor : Option ℕ
  pub stage_pacer : Option StagePacer

unfoldable pub new_selection : (fuel length : ℕ) → ReplayOrder → (seed : ℕ) → Option Selection
new_selection fuel length sequential seed = some (in_turn 0)
new_selection fuel length random seed = some (at_random 0 seed)
new_selection fuel length shuffle seed = elim (reshuffle fuel (new_shuffle length seed)) [
  | none ↦ none
  | some s ↦ some (shuffled s)
]

unfoldable pub new_sequence :
    (fuel : ℕ) → List EncodedRequest → ReplayOrder → (seed : ℕ) → Option RequestSequence
new_sequence fuel requests order seed = elim (new_selection fuel (length requests) order seed) [
  | none ↦ none
  | some selection ↦ some (record {
    requests = requests;
    selection = selection;
    pacer = none;
    timestamp_pacer = none;
    timestamp_cursor = none;
    stage_pacer = none;
  })
]

unfoldable pub with_timestamps : (started : ℕ) → RequestSequence → RequestSequence
with_timestamps started q = record q {
  timestamp_pacer = some (new_timestamp_pacer started);
  timestamp_cursor = some 0;
}

unfoldable pub with_stages : List ReplayStage → RequestSequence → RequestSequence
with_stages stages q =
    if not (is_empty stages) then record q { stage_pacer = some (new_stage_pacer stages) } else q

unfoldable pub with_rate :
    (interval_of : ℕ → ℕ) (rate : Option ℕ) (started : ℕ) → RequestSequence → RequestSequence
with_rate interval_of none started q = record q { pacer = none }
with_rate interval_of (some rate) started q = record q {
  pacer = some (new_pacer interval_of rate started);
}

-- An index below the count of requests, where that is not 0, and the selection after it.
unfoldable pub select : (fuel count : ℕ) → Selection → Option (ℕ × Selection)
select fuel count (in_turn next) =
    if count == 0 then none else some (next % count, in_turn (add64 next 1))
select fuel count (at_random next seed) =
    if count == 0 then none else elim (bounded fuel (splitmix64 (add64 seed next)) count) [
      | none ↦ none
      | some i ↦ some (i, at_random (add64 next 1) seed)
    ]
select fuel count (shuffled s) = elim (next_shuffled fuel s) [
  | none ↦ none
  | some (i, s') ↦ some (i, shuffled s')
]

-- The timestamp cursor, if there is one, goes before the selection.
unfoldable pub next_index : (fuel : ℕ) → RequestSequence → Option (ℕ × RequestSequence)
next_index fuel q = elim q.timestamp_cursor [
  | some cursor ↦
      if length q.requests == 0
      then none
      else some (cursor, record q { timestamp_cursor = some ((cursor + 1) % length q.requests) })
  | none ↦ elim (select fuel (length q.requests) q.selection) [
    | none ↦ none
    | some (i, selection) ↦ some (i, record q { selection = selection })
  ]
]

module _ (interval_of scaled : ℕ → ℕ) where
  -- The instant of the first pacer there is; a request without a timestamp panics under its pacer.
  unfoldable pub schedule :
      EncodedRequest → (now : ℕ) → RequestSequence → Option (Option ℕ × RequestSequence)
  schedule request now q = elim q.pacer [
    | some p ↦ let (slot, p') = reserve p now in some (some slot, record q { pacer = some p' })
    | none ↦ elim q.timestamp_pacer [
      | some p ↦ elim request.timestamp_micros [
        | none ↦ none
        | some timestamp ↦ elim (reserve_timestamp scaled p timestamp now) [
          | none ↦ none
          | some (slot, p') ↦ some (some slot, record q { timestamp_pacer = some p' })
        ]
      ]
      | none ↦ elim q.stage_pacer [
        | none ↦ some (none, q)
        | some p ↦ elim (reserve_stage interval_of p now) [
          | none ↦ none
          | some (slot, p') ↦ some (some slot, record q { stage_pacer = some p' })
        ]
      ]
    ]
  ]

  -- `RequestSequence::next`
  unfoldable pub next : (fuel now : ℕ) → RequestSequence → Option (NextRequest × RequestSequence)
  next fuel now q = elim (next_index fuel q) [
    | none ↦ none
    | some (i, q') ↦ elim (get_elem? q'.requests i) [
      | none ↦ none
      | some request ↦ elim (schedule request now q') [
        | none ↦ none
        | some (scheduled, q'') ↦ elim (method_of request.method_uri_start) [
          | none ↦ none
          | some method ↦ some (
            record {
              method = method;
              request = request.bytes;
              uri_start = uri_start_of request.method_uri_start;
              uri_end = request.uri_end;
              not_before = scheduled;
            },
            q'',
          )
        ]
      ]
    ]
  ]
