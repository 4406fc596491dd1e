-- ===== src/Hardware/Plugin/Startup.antt =====
-- zenbedded_hardware_interface/src/zenbedded_hardware.cpp: when on_init succeeds, and what it leaves.
use Prim.Native.String.{String}
use zephyr_zenoh_integration.Prelude.{
  ℕ, ◌-◌, ◌≡◌, refl, ◌∙◌, Bool, true, false, List, Option, none, some, arith, length, take,
  replicate, length-append, length-take, length-replicate, Option-cases, inl, inr, ap,
}
use zephyr_zenoh_integration.Hardware.Schema.Parse.{Document, from_yaml, from_yaml_file}
use zephyr_zenoh_integration.Hardware.Schema.Packing.{IsLaidOut, from_document-IsLaidOut}
use zephyr_zenoh_integration.Hardware.Plugin.State.{
  Platform, CallbackReturn, success, ZenbeddedHardware, resize, IsReady,
}
use zephyr_zenoh_integration.Hardware.Plugin.Lifecycle.{on_init, require, allocate}

length-resize : {A : Type 0} (n : ℕ) (x : A) (xs : List A) → length (resize n x xs) ≡ n
length-resize n x xs = omega (
  arith,
  length-append (take n xs) (replicate (n - length xs) x),
  length-take n xs,
  length-replicate (n - length xs) x,
)

-- A required parameter is there, and what follows holds of it.
abbrev pub Present : Option String → (String → Type 0) → Type 0
Present o P = (value : String) × (o ≡ some value) × P value

module _ (load : String → Document) (read_file : String → Option String) where
  from_yaml_file-IsLaidOut : (path : String) → IsLaidOut (from_yaml_file load read_file path)
  unfolding from_yaml_file from_yaml
  from_yaml_file-IsLaidOut path = elim (Option-cases (read_file path)) [
    | inl e ↦ rw (e, from_yaml_file) (record { states = refl; commands = refl })
    | inr (content, e) ↦ rw (e, from_yaml_file) (from_document-IsLaidOut (load content))
  ]

  module _ (platform : Platform) where
    allocate-success :
        (valid : Bool) (hw : ZenbeddedHardware platform)
        → IsLaidOut hw.schema
        → (allocate platform valid hw).0 ≡ success
        → (valid ≡ true) × IsReady platform (allocate platform valid hw).1
    allocate-success false hw laid h = absurd (grind arith)
    allocate-success true hw laid h = (
      refl,
      record {
        laid_out = laid;
        states = length-resize _ _ hw.hw_states;
        commands = length-resize _ _ hw.hw_commands;
        state_size =
            ap length (platform.buffers.latest-write_from_non_rt _ hw.state_buffer)
            ∙ length-replicate hw.schema.state_buffer_size 0;
        command_size = length-resize _ _ hw.command_buffer;
      },
    )

    require-success :
        (o : Option String) (hw : ZenbeddedHardware platform)
        (k : String → CallbackReturn × ZenbeddedHardware platform) (P : String → Type 0)
        → ((value : String) → (k value).0 ≡ success → P value × IsReady platform (k value).1)
        → (require platform o hw k).0 ≡ success
        → Present o P × IsReady platform (require platform o hw k).1
    require-success none hw k P step h = absurd (grind arith)
    require-success (some value) hw k P step h =
        let (p, ready) = step value h in ((value, refl, p), ready)

    -- The four parameters, and the schema that the last of them names.
    abbrev pub IsStartable : (String → Option String) → Type 0
    IsStartable parameters = Present (parameters "zenoh_endpoint") (λ endpoint.
        Present (parameters "state_topic") (λ state_topic.
          Present (parameters "command_topic") (λ command_topic.
            Present (parameters "schema_path")
              (λ path. (from_yaml_file load read_file path).valid ≡ true))))

    -- If `on_init` reports success, then `SystemInterface::on_init` succeeded, the four required
    -- parameters are there, the schema file is read and valid, and the plugin is ready: its schema is
    -- packed, and both vectors and both buffers have the sizes that the schema asks for, whatever
    -- the plugin held before.
    pub on_init-IsReady :
        (base : Bool) (parameters : String → Option String) (hw : ZenbeddedHardware platform)
        → (on_init platform load read_file base parameters hw).0 ≡ success
        → (base ≡ true)
          × IsStartable parameters
          × IsReady platform (on_init platform load read_file base parameters hw).1
    unfolding on_init
    on_init-IsReady false parameters hw h = absurd (grind arith)
    on_init-IsReady true parameters hw h =
        let (startable, ready) =
          require-success _ _ _ _
            (λ endpoint. require-success _ _ _ _ (λ state_topic.
              require-success _ _ _ _ (λ command_topic.
                require-success _ _ _ _
                  (λ path. allocate-success _ _ (from_yaml_file-IsLaidOut path)))))
            h in
        (refl, startable, ready)
