-- ===== src/Demangle/Tests.antt =====
-- aarch64/src/demangle.rs: the tests of the source.
use r9x.Prelude.{ℕ, ◌≡◌, refl, true, List, [], ◌∷◌, ◌++◌, replicate, ok, panic, arith, Post}
use Prim.Native.Char.{code}
use Prim.Native.String.{String}
use r9x.Demangle
use r9x.Demangle.Scan
use r9x.Demangle.Format
use r9x.Demangle.Format.{demangle}
use r9x.Demangle.Format.Total.{Keeps, demangle-Returns}
use r9x.Demangle.Scan.{read_names, start, panics}
use r9x.Demangle.Scan.Total.{Ends, read_names-Ends, start-InBounds}

abbrev codes : String → List ℕ
codes String.[] = []
codes (String.◌∷◌ c s) = code c ∷ codes s

demangles_crate_function :
    demangle (codes "_RNvCs3CFL12ppSuB_9faulttest4main") (replicate 20 0)
    ≡ ok (true, codes "faulttest::main" ++ replicate 5 0)
unfolding demangle Format.format Format.close_generics Format.copy_name Format.is_after_angle
    Format.open_generics Format.put Format.separate Format.separate_generic Format.terminate
    Format.write_generics Format.write_path Scan.opaque Scan.read_names Scan.round Scan.dispatch
    Scan.segment Scan.byte_in Scan.crate_root Scan.name_at Demangle.read_crate_disamb
    Demangle.longest_split Demangle.split Demangle.is_disamb_byte Demangle.peek_name
    Demangle.count_digits Demangle.decimal Demangle.is_name_byte Demangle.read_name
demangles_crate_function = refl

demangles_crate_module_function :
    demangle (codes "_RNvNtCsap4Ua6k489x_7r9x_std7process4exit") (replicate 30 0)
    ≡ ok (true, codes "r9x_std::process::exit" ++ replicate 8 0)
unfolding demangle Format.format Format.close_generics Format.copy_name Format.is_after_angle
    Format.open_generics Format.put Format.separate Format.separate_generic Format.terminate
    Format.write_generics Format.write_path Scan.opaque Scan.read_names Scan.round Scan.dispatch
    Scan.segment Scan.byte_in Scan.crate_root Scan.name_at Demangle.read_crate_disamb
    Demangle.longest_split Demangle.split Demangle.is_disamb_byte Demangle.peek_name
    Demangle.count_digits Demangle.decimal Demangle.is_name_byte Demangle.read_name
demangles_crate_module_function = refl

-- A text that does not fit is cut.
cuts :
    demangle (codes "_RNvCs3CFL12ppSuB_9faulttest4main") (replicate 6 0) ≡ ok (true, codes "faultt")
unfolding demangle Format.format Format.close_generics Format.copy_name Format.is_after_angle
    Format.open_generics Format.put Format.separate Format.separate_generic Format.terminate
    Format.write_generics Format.write_path Scan.opaque Scan.read_names Scan.round Scan.dispatch
    Scan.segment Scan.byte_in Scan.crate_root Scan.name_at Demangle.read_crate_disamb
    Demangle.longest_split Demangle.split Demangle.is_disamb_byte Demangle.peek_name
    Demangle.count_digits Demangle.decimal Demangle.is_name_byte Demangle.read_name
cuts = refl

-- A length of 20 digits overflows.
overflows : demangle (codes "_R99999999999999999999") (replicate 6 0) ≡ panic
unfolding demangle Format.format Format.close_generics Format.copy_name Format.is_after_angle
    Format.open_generics Format.put Format.separate Format.separate_generic Format.terminate
    Format.write_generics Format.write_path Scan.opaque Scan.read_names Scan.round Scan.dispatch
    Scan.segment Scan.byte_in Scan.crate_root Scan.name_at Demangle.read_crate_disamb
    Demangle.longest_split Demangle.split Demangle.is_disamb_byte Demangle.peek_name
    Demangle.count_digits Demangle.decimal Demangle.is_name_byte Demangle.read_name
overflows = refl

read_names-Ends_example :
    Ends
      (codes "_RNvCs3CFL12ppSuB_9faulttest4main")
      (read_names 33 (codes "_RNvCs3CFL12ppSuB_9faulttest4main") start)
read_names-Ends_example =
    read_names-Ends 33 (codes "_RNvCs3CFL12ppSuB_9faulttest4main") start (start-InBounds _)
      (omega arith)

demangle-Returns_example :
    Post
      (Keeps (replicate 20 0))
      (λ e. ⊥)
      (read_names 33 (codes "_RNvCs3CFL12ppSuB_9faulttest4main") start ≡ panics)
      (demangle (codes "_RNvCs3CFL12ppSuB_9faulttest4main") (replicate 20 0))
demangle-Returns_example =
    demangle-Returns (codes "_RNvCs3CFL12ppSuB_9faulttest4main") (replicate 20 0)
