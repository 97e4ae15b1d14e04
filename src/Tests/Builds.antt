-- ===== src/Tests/Builds.antt =====
-- The build script, on a host where everything it starts turns out well, with UCX 1.21.1.
use ucx_rs.Base.{refl, true, none, some, [], ◌∷◌, arith}
use ucx_rs.Build.{Host, main}
use ucx_rs.Build.Output.{program_output}
use ucx_rs.Build.Validation.{Validated, main-Validated}

abbrev host : Host
host = record {
  ucx_prefix = none;
  ucx_include_dir = none;
  ucx_lib_dir = none;
  generate_bindings = some (b'1' ∷ []);
  out_dir = some ("/out" ∷ []);
  exists = λ p. true;
  copies = true;
  generates = true;
  writes_bindings = true;
  writes_check = true;
  cc = some true;
  check_output = some (program_output 12101);
}

main-Validated_example : Validated host 12101 (main host)
main-Validated_example = main-Validated host 12101 (omega arith) refl
