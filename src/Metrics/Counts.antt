-- ===== src/Metrics/Counts.antt =====
-- `SocketErrors` and `StatusCounts` of src/metrics.rs.
pub mod Merge
use rload.Prelude.{
  ℕ, zero, suc, ◌+◌, ◌-◌, ◌*◌, ◌/◌, ◌%◌, ◌^◌, ◌≤◌, ◌<◌, min, max, String, ◌≡◌, refl, sym, ap, ◌∙◌,
  subst, ◌≢◌, ◌↔◌, ◌⊎◌, inl, inr, Bool, true, false, not, ◌&&◌, ◌||◌, Option, none, some, List, [],
  ◌∷◌, ◌++◌, map, append-nil, append_assoc, arith, ltb, leb, ◌==◌, if◌then◌else◌, ltb→lt, lt→ltb,
  leb→le, le→leb, ltb_false→le, leb_false→lt, ==_iff, tests, Bool-cases, Option-cases, &&_true,
  or_sound, or_complete, Bytes, codes, length, get_elem?, set, take, drop, replicate, is_empty,
  length-append, length-take, length-drop, length-set, drop-get_some, drop-get_none, get_some-lt,
  get_none-le, lt-get_some, bytes_eq, bytes_eq_sound, bytes_eq_refl, All, All-get, Any, All-append,
  All-append_left, All-append_right, All-take, All-imp, All-both, Any-All, take-append, drop-append,
  drop-append_past, drop_all, u64_mod, u64_max, add64, add64_exact,
}

pub record SocketErrors : Type 0 where
  pub connect : ℕ
  pub read : ℕ
  pub write : ℕ
  pub timeout : ℕ

unfoldable pub total : SocketErrors → ℕ
total e = add64 (add64 (add64 e.connect e.read) e.write) e.timeout

unfoldable pub merge_errors : SocketErrors → SocketErrors → SocketErrors
merge_errors e other = record {
  connect = add64 e.connect other.connect;
  read = add64 e.read other.read;
  write = add64 e.write other.write;
  timeout = add64 e.timeout other.timeout;
}

-- `[u64; 1000]`
pub record StatusCounts : Type 0 where
  pub counts : List ℕ

unfoldable pub new_counts : StatusCounts
new_counts = record { counts = replicate 1000 0 }

-- `if let Some(count) = counts.get_mut(index) { *count += 1 }`
unfoldable pub increment_at : ℕ → List ℕ → List ℕ
increment_at index [] = []
increment_at zero (c ∷ cs) = add64 c 1 ∷ cs
increment_at (suc index) (c ∷ cs) = c ∷ increment_at index cs

unfoldable pub record_status : ℕ → StatusCounts → StatusCounts
record_status status s = record { counts = increment_at status s.counts }

-- `counts.get(status).copied().unwrap_or(0)`
unfoldable pub count_at : List ℕ → ℕ → ℕ
count_at [] status = 0
count_at (c ∷ cs) zero = c
count_at (c ∷ cs) (suc status) = count_at cs status

unfoldable pub status_count : StatusCounts → ℕ → ℕ
status_count s status = count_at s.counts status

-- The loop over `iter_mut().zip(other)`
unfoldable pub add_all : List ℕ → List ℕ → List ℕ
add_all [] others = []
add_all (c ∷ cs) [] = c ∷ cs
add_all (c ∷ cs) (o ∷ os) = add64 c o ∷ add_all cs os

unfoldable pub merge_counts : StatusCounts → StatusCounts → StatusCounts
merge_counts s other = record { counts = add_all s.counts other.counts }
