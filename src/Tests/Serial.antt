-- ===== src/Tests/Serial.antt =====
-- Tests of attempts that are written and read.
use dnsviz.Base.{ℕ, ◌+◌, ◌*◌, ◌/◌, ◌≤◌, ◌<◌, none, some, ◌≡◌, refl, ◌==◌, if◌then◌else◌, arith}
use dnsviz.Query.Types.{Retry, network_error, use_tcp}
use dnsviz.Query.Serial.{
  FloatApi, IsFloatApi, ErrnoApi, IsErrnoApi, serialize, deserialize, deserialize-serialize,
}

-- A table with one error.
abbrev refused_only : ErrnoApi
refused_only = record {
  errorcode = λ n. if n == 111 then some "ECONNREFUSED" else none;
  number = λ name. some 111;
}

refused_only-IsErrnoApi : IsErrnoApi refused_only
refused_only-IsErrnoApi n name h = ground (arith, h)

abbrev refused : Retry
refused = record {
  response_time = 30500;
  cause = network_error;
  cause_arg = some 111;
  action = use_tcp;
}

-- Whole milliseconds, but for one time.
abbrev floored : FloatApi
floored = record { milliseconds = λ t. if t == 1001000 then 1000 else t / 1000 }

floored-IsFloatApi : IsFloatApi floored
floored-IsFloatApi t = ground arith

deserialize-serialize_example :
    (whole : ℕ) × (deserialize refused_only floored (serialize refused_only floored refused)
      ≡ some (record refused { response_time = whole * 1000 }))
    × (whole * 1000 ≤ 30500)
    × (30500 < whole * 1000 + 2000)
deserialize-serialize_example =
    deserialize-serialize refused_only floored refused refused_only-IsErrnoApi floored-IsFloatApi
      refl
