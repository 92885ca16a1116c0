-- ===== src/ConfGen/Output.antt =====
-- The files and the connection of tools/bbbconfgen/bbbconfgen.go, and its `main` after the flags.
use bitbox_base.Base.{
  ℕ, Option, none, some, List, [], ◌∷◌, ◌++◌, ◌⊎◌, inl, inr, Action, if◌then◌else◌,
}
use bitbox_base.Base.Text.{Text, text}
use bitbox_base.ConfGen.Patterns.{find_output, trim_spaces}
use bitbox_base.ConfGen.Template.{Counts, no_counts, process_lines, is_zero_length}

-- The command line.
pub record Arguments : Type 0 where
  pub template : Text
  pub output : Text
  pub redis_addr : Text
  pub redis_pass : Text
  pub redis_db : ℕ

-- What `redis.Dial` is given besides the address.
pub data DialOption : Type 0 where
  dial_password : Text → DialOption
  dial_database : ℕ → DialOption

unfoldable pub dial_options : Arguments → List DialOption
dial_options a =
    if is_zero_length a.redis_pass
    then dial_password a.redis_pass ∷ dial_database a.redis_db ∷ []
    else dial_database a.redis_db ∷ []

-- The lines that the scanner reads of a file, and the text of the error it ends with.
abbrev pub Scanned : Type 0
Scanned = List Text × Option Text

-- Redis and the file system. An error is its text; `open_file` and `create` are `none` on an error.
pub record Device (World : Type 0) : Type 0 where
  pub dial : Text → List DialOption → Action World (Option Text)
  pub ping : Action World (Option Text)
  pub get : Text → Action World Text
  pub open_file : Text → Action World (Option Scanned)
  pub create : Text → Action World (Option Unit)

-- How the program ends: with the text of `log.Fatal`, with a panic, or with the lines written into
-- the output file.
pub data Ended : Type 0 where
  fatal : Text → Ended
  panicked : Ended
  written : Text → List Text → Counts → Ended

-- `scannerOutputFile.Text()` after one `Scan`.
abbrev first_line : List Text → Text
first_line [] = []
first_line (line ∷ lines) = line

abbrev ending : Text → Option Text → Option (List Text × Counts) → Ended
ending name error none = panicked
ending name (some e) (some (ls, counts)) = fatal e
ending name none (some (ls, counts)) = written name ls counts

module _ {World : Type 0} (device : Device World) where
  unfoldable pub connect_redis : Arguments → Action World (Option Text)
  unfolding dial_options
  connect_redis a w =
      let (error, w') = device.dial a.redis_addr (dial_options a) w in
      elim error [ none ↦ device.ping w' | some e ↦ (some e, w') ]

  -- The name of the output file: that of the command line, or that of the first line.
  unfoldable pub output_name : Arguments → Action World (Ended ⊎ Text)
  unfolding find_output trim_spaces text
  output_name a w =
      if is_zero_length a.output
      then (let (opened, w') = device.open_file a.template w in
          elim opened [
            | none ↦ (inl (fatal (text "cannot open templateFile " ++ a.template)), w')
            | some scanned ↦ elim (find_output (first_line (scanned.0))) [
              | none ↦ (
                inl (
                    fatal (
                      text
                        "no output file specified, specify either --output argument or within template")),
                w',
              )
              | some group ↦ (inr (trim_spaces group), w')
            ]
          ])
      else (inr a.output, w)

  -- It is emptied if it exists.
  unfoldable pub open_output_file : Arguments → Action World (Ended ⊎ Text)
  unfolding output_name text
  open_output_file a w =
      let (named, w') = output_name a w in
      elim named [
        | inl e ↦ (inl e, w')
        | inr name ↦
            let (created, v) = device.create name w' in
            elim created [
              | none ↦ (inl (fatal (text "cannot create outputFile " ++ name)), v)
              | some u ↦ (inr name, v)
            ]
      ]

  unfoldable pub parse_template : Scanned → Text → Action World Ended
  unfolding process_lines
  parse_template scanned name w =
      let (done, w') = process_lines device.get (scanned.0) no_counts w in
      (ending name (scanned.1) done, w')

  -- The text of the error of `os.Open` is left out.
  unfoldable pub run_generator : Arguments → Action World Ended
  unfolding connect_redis open_output_file parse_template text
  run_generator a w =
      if is_zero_length a.template
      then (fatal (text "No input template file specified using --template argument."), w)
      else (let (refused, w1) = connect_redis a w in
          elim refused [
            | some e ↦ (fatal e, w1)
            | none ↦
                let (opened, w2) = device.open_file a.template w1 in
                elim opened [
                  | none ↦ (fatal [], w2)
                  | some scanned ↦
                      let (named, w3) = open_output_file a w2 in
                      elim named [ inl e ↦ (e, w3) | inr name ↦ parse_template scanned name w3 ]
                ]
          ])
