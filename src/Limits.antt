-- ===== src/Limits.antt =====
-- limits.rs
use bip.Base.{ℕ}
use bip.Error.{Result, ok, err, too_many_proof_inputs}
use bip.Base.{if◌then◌else◌, ltb}

abbrev pub max_stack_size : ℕ
max_stack_size = 1000

abbrev pub max_script_size : ℕ
max_script_size = 10_000

abbrev pub max_ops_per_script : ℕ
max_ops_per_script = 201

abbrev pub max_encoding_size : ℕ
max_encoding_size = 4_000_000

abbrev pub max_proof_inputs : ℕ
max_proof_inputs = 1024

unfoldable pub check_input_count : ℕ → Result (Unit {0})
check_input_count total =
    if ltb max_proof_inputs total then err (too_many_proof_inputs total max_proof_inputs) else ok tt
