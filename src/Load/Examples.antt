-- ===== src/Load/Examples.antt =====
-- A pack with one component, in the layouts with and without a design side.
use greentic_designer_extens.Base.{
  ◌≡◌, refl, sym, subst, Bool, true, false, some, List, [], ◌∷◌, Memᴰ, Text, codes, text_eq,
  if◌then◌else◌,
}
use greentic_designer_extens.Base.Outcome.{ok}
use greentic_designer_extens.Capability.Sample.{sample, kinds}
use greentic_designer_extens.Runtime.Defs.{
  FilePath, path_eq, wasmtime, LoadedExtension, ExtensionRuntime, start, register_loaded_from_dir,
}
use greentic_designer_extens.Verify.Sdk.{Disk, Sdk, is_dir, is_file}
use greentic_designer_extens.Load.Defs.{Engine, Messages, load_dir, gate_of, loaded_of}
use greentic_designer_extens.Load.Vouched.{IsLoaded, load_dir-IsLoaded}
use greentic_designer_extens.Load.Registered.{started, registered, Attested, Running-Attested}

abbrev pack : FilePath
pack = codes "demo" ∷ []

-- The digest is the text itself; the trust store holds the keys that are pinned.
abbrev toy : Sdk
toy = record {
  Describe = Text;
  TrustStore = List Text;
  parse_describe = λ t. some t;
  id_of = λ d. codes "demo";
  public_key = λ d. some (codes "k");
  is_self_consistent = λ d. true;
  binds_manifest = λ d raw. text_eq d raw;
  parse_manifest = λ t. some (record {
    schema = codes "v1";
    entries = record { path = codes "a"; sha256 = codes "w" } ∷ [];
  });
  sha256_hex = λ t. t;
  pin_or_verify = λ store id key. some (key ∷ store);
  manifest_schema_v1 = codes "v1";
  manifest_entry_name = codes "m";
  describe_entry_name = codes "d";
}

abbrev wasm : FilePath
wasm = codes "a" ∷ pack

abbrev disk : Disk
disk = record {
  read = λ p. if path_eq p wasm then ok (codes "w") else ok (codes "s");
  symlink_metadata = λ p. if path_eq p pack then ok is_dir else ok is_file;
  read_dir = λ p. ok ((codes "m" ∷ pack) ∷ (codes "d" ∷ pack) ∷ wasm ∷ []);
}

abbrev engine : Engine sample kinds toy
engine = record {
  from_binary = λ t. some t;
  kind = λ d. codes "design";
  version = λ d. codes "1";
  offered = λ d. [];
  components = λ d. some (codes "a") ∷ [];
}

abbrev texts : Messages sample kinds toy engine
texts = record {
  io_text = λ e. codes "io";
  too_deep_text = codes "deep";
  describe_error = wasmtime (codes "describe");
  load_text = λ e. codes "load";
}

abbrev bare : FilePath → Bool
bare p = false

abbrev demo : LoadedExtension sample kinds
demo = loaded_of sample kinds toy engine (codes "s") pack (codes "w")

loads_test :
    load_dir sample kinds toy engine texts disk bare disk pack [] ≡ (ok demo, codes "k" ∷ [])
unfolding load_dir
loads_test = refl

load_dir-IsLoaded_example : IsLoaded sample kinds toy engine disk pack [] (codes "k" ∷ []) demo
load_dir-IsLoaded_example =
    load_dir-IsLoaded sample kinds toy engine texts disk bare disk pack [] (codes "k" ∷ []) demo
      loads_test

abbrev booted : ExtensionRuntime sample kinds
booted =
    (register_loaded_from_dir sample kinds (gate_of sample kinds toy engine texts disk bare disk [])
      pack (start sample kinds)).1

booted_test : booted.loaded ≡ (codes "demo", demo) ∷ []
unfolding register_loaded_from_dir gate_of start
booted_test = refl

demo-mem : Memᴰ (codes "demo", demo) booted.loaded
demo-mem = subst (Memᴰ (codes "demo", demo)) (sym booted_test) (Memᴰ.head refl)

Running-Attested_example : (codes "demo" ≡ demo.id) × Attested sample kinds toy engine texts demo
Running-Attested_example =
    Running-Attested sample kinds toy engine texts booted
      (registered disk bare disk [] pack (start sample kinds) started) (codes "demo") demo demo-mem
