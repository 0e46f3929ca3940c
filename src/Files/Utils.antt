-- ===== src/Files/Utils.antt =====
-- The functions of src/utils.c on attributes, lines and mappings, by what they open and close.
use ultrasight.Common.{◌≡◌, refl, ℕ, zero, suc, ℤ, is_neg, false, arith, some, List, []}
use ultrasight.Locks.Calls.{touches_file}
use ultrasight.Machine.{
  fopen, fclose, opendir, closedir, Env, Call, close_file, open_file, read_line, MapInfo,
}
use ultrasight.Machine.Keeps.{Ignores}
use ultrasight.Files.{Handle, open_in, file_step}
use ultrasight.Files.Uses.Handles.{using}
use ultrasight.Files.Uses.{Uses, then_Uses, Uses-fault, Uses-ask_out, if-Uses, Uses-pure}
use ultrasight.Utils.Maps.Parse.{Fields, scan_line, strip_newline}
use ultrasight.Utils.Maps.Setup.{read_maps, add_line, map_file, setup_map_info}
use ultrasight.Utils.Sysfs.{
  check_directory, read_attribute, get_udmabuf_info, get_ksight_info, write_attribute,
}

file_step-silent :
    (r : ℤ) (c : Call) (ks : List Handle) → touches_file c ≡ false → file_step r c ks ≡ some ks
file_step-silent r (open_file path) ks h = cc
file_step-silent r (close_file fd) ks h = cc
file_step-silent r (fopen path) ks h = cc
file_step-silent r (fclose fp) ks h = cc
file_step-silent r (opendir path) ks h = cc
file_step-silent r (closedir dp) ks h = cc
file_step-silent r _ ks h = refl

module _ (env : Env) where
  pub quiet : (c : Call) → touches_file c ≡ false → Ignores (open_in env) c
  quiet c h = record {
    ignores = λ s. ground (arith, λ (ks : List Handle). file_step-silent (env.ret s.log c) c ks h);
  }

  read_attribute-Uses : (path : List ℕ) → Uses env [] [] (read_attribute env path)
  unfolding read_attribute
  read_attribute-Uses path = search (using, quiet) depth 30

  pub get_udmabuf_info-Uses : {xs : List Handle} (n : ℤ) → Uses env xs xs (get_udmabuf_info env n)
  unfolding get_udmabuf_info check_directory
  get_udmabuf_info-Uses n = search (using, quiet, read_attribute-Uses) depth 40

  pub get_ksight_info-Uses : {xs : List Handle} → Uses env xs xs (get_ksight_info env)
  unfolding get_ksight_info check_directory
  get_ksight_info-Uses = search (using, quiet, read_attribute-Uses) depth 40

  pub write_attribute-Uses :
      {xs : List Handle} (name : List ℕ) (value : ℤ)
      → Uses env xs xs (write_attribute env name value)
  unfolding write_attribute check_directory
  write_attribute-Uses name value = search (using, quiet) depth 40

  map_file-Uses : (i : ℕ) → Uses env [] [] (map_file env i)
  unfolding map_file
  map_file-Uses i = search (using, quiet) depth 40

  read_maps-Uses :
      {xs : List Handle} (fuel max : ℕ) (fp : ℤ) (f : Fields) (acc : ℕ × List MapInfo)
      → Uses env xs xs (read_maps env fuel max fp f acc)
  unfolding read_maps
  read_maps-Uses zero max fp f acc = Uses-fault
  read_maps-Uses (suc fuel) max fp f acc =
      then_Uses (Uses-ask_out (quiet (read_line fp) refl)) (λ (n, text).
        if-Uses (is_neg n) (Uses-pure {a = acc}) (
          read_maps-Uses fuel max fp (scan_line f (strip_newline text))
            (add_line max (scan_line f (strip_newline text)) (strip_newline text) acc.0 acc.1)))

  pub setup_map_info-Uses :
      {xs : List Handle} (fuel : ℕ) (f : Fields) (pid : ℤ) (max : ℕ)
      → Uses env xs xs (setup_map_info env fuel f pid max)
  unfolding setup_map_info
  setup_map_info-Uses fuel f pid max = search (using, quiet, read_maps-Uses, map_file-Uses) depth 40
