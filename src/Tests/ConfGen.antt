-- ===== src/Tests/ConfGen.antt =====
-- The configuration generator at a template of two lines.
use bitbox_base.Base.{
  false, true, not, Option, none, some, List, [], ◌∷◌, ◌++◌, map, ◌≡◌, refl, if◌then◌else◌, arith,
}
use bitbox_base.Base.Text.{Text, text, text_eq}
use bitbox_base.Base.Text.Affix.{Lacks}
use bitbox_base.Base.Spaces.Trim.{blanks}
use bitbox_base.ConfGen.Patterns.{opening, closing, to_lower, find_output, trim_spaces}
use bitbox_base.ConfGen.Parts.{IsKey, has_key_bytes-IsKey, Part, literal, placeholder, show_all}
use bitbox_base.ConfGen.Render.{IsLookedUp, render_all}
use bitbox_base.ConfGen.Template.{Line, Counts, no_counts, process_line, process_lines}
use bitbox_base.ConfGen.Output.{Device, dial_database, dial_options, written, parse_template}
use bitbox_base.ConfGen.Conditional.{drops, conditional_line, process_line-conditional_line}
use bitbox_base.ConfGen.Written.{IsLine, parse_template-render_all, process_line_panics}

-- Redis has a value for `user`, and `on` for `on`.
abbrev value : Text → Text
value k =
    if text_eq k (text "user") then text "base" else if text_eq k (text "on") then text "No" else []

Lacks-base : Lacks b'{' (text "base")
unfolding text
Lacks-base = (λ e. omega arith, (λ e. omega arith, (λ e. omega arith, (λ e. omega arith, tt))))

Lacks-no : Lacks b'{' (text "No")
unfolding text
Lacks-no = (λ e. omega arith, (λ e. omega arith, tt))

Lacks-value : (k : Text) → Lacks b'{' (value k)
Lacks-value k = ground (arith, Lacks-base, Lacks-no)

abbrev device : Device (Unit {0})
device = record {
  dial = λ addr options w. (none, w);
  ping = λ w. (none, w);
  get = λ k w. (value k, w);
  open_file = λ name w. (none, w);
  create = λ name w. (some tt, w);
}

abbrev user_line : List Part
user_line = literal (text "a=") ∷ placeholder (text "user") ∷ placeholder (text "net") ∷ []

user-IsKey : IsKey (text "user")
unfolding text
user-IsKey = has_key_bytes-IsKey b'u' _ refl

net-IsKey : IsKey (text "net")
unfolding text
net-IsKey = has_key_bytes-IsKey b'n' _ refl

on-IsLookedUp : IsLookedUp (text "on")
unfolding text to_lower text_eq
on-IsLookedUp = (has_key_bytes-IsKey b'o' _ refl, refl)

Lacks-name : Lacks b'{' (text "a=")
unfolding text
Lacks-name = (λ e. omega arith, (λ e. omega arith, tt))

user_line-IsLine : IsLine user_line
unfolding text to_lower text_eq
user_line-IsLine =
    ((Lacks-name, (user-IsKey, (net-IsKey, tt))), ((user-IsKey, refl), ((net-IsKey, refl), tt)))

-- What is written for a line.
abbrev outcome : Text → Option (List Text)
outcome line = elim (process_lines (device.get) (line ∷ []) no_counts tt).0 [
  | none ↦ none
  | some r ↦ some (r.0)
]

outcome_user_line : outcome (text "a={{ user }}{{ net }}") ≡ some (text "a=base{{ net }}" ∷ [])
unfolding process_lines text
outcome_user_line = refl

outcome_options :
    (outcome (text "{{ on #rmLineFalse }}b") ≡ some [])
    × (outcome (text "{{ on #rmLineTrue }}b") ≡ some (text "b" ∷ []))
    × (outcome (text "{{ net #default: x y }}b") ≡ some (text "x yb" ∷ []))
    × (outcome (text "{{ net #RM }}b") ≡ some (text "b" ∷ []))
    × (outcome (text "{{ net #rmline }}b") ≡ some [])
    × (outcome (text "{{ net #rmlinefalse }}b") ≡ some (text "{{ net #rmlinefalse }}b" ∷ []))
    × (outcome (text "{{ #output: /tmp/a }}") ≡ some [])
unfolding process_lines text
outcome_options = (refl, refl, refl, refl, refl, refl, refl)

output_name_of : Text → Option Text
output_name_of line = elim (find_output line) [
  | none ↦ none
  | some group ↦ some (trim_spaces group)
]

output_name_example :
    output_name_of (text "# {{ #output: /etc/a.conf  }}") ≡ some (text "/etc/a.conf")
unfolding output_name_of find_output trim_spaces text
output_name_example = refl

-- With a password, it is not sent.
dial_options_password :
    dial_options (record {
      template = [];
      output = [];
      redis_addr = [];
      redis_pass = text "secret";
      redis_db = 0;
    })
    ≡ dial_database 0 ∷ []
unfolding dial_options text
dial_options_password = refl

parse_template-render_all_example :
    (counts : Counts) × (parse_template device (map show_all (user_line ∷ []), none) (text "out") tt
      ≡ (written (text "out") (map (render_all value) (user_line ∷ [])) counts, tt))
parse_template-render_all_example =
    parse_template-render_all device value tt (λ k. refl) Lacks-value (user_line ∷ []) (text "out")
      (user_line-IsLine, tt)

process_line_panics_example :
    process_line (device.get) (text "a=" ++ (opening ++ (blanks 1 ++ (closing ++ [])))) no_counts tt
    ≡ (none, tt)
process_line_panics_example =
    process_line_panics (device.get) (text "a=") [] 0 no_counts tt Lacks-name

process_line-conditional_line_example :
    let (v, w) = device.get (text "on") tt in
    (l : Line) × (process_line
        (device.get)
        (conditional_line (text "a=") (text "on") false [])
        no_counts
        tt
      ≡ (some l, w))
    × (l.print_line ≡ not (drops false v))
    × (l.print_line ≡ true → l.output_line ≡ text "a=" ++ [])
process_line-conditional_line_example =
    process_line-conditional_line (device.get) (text "a=") (text "on") [] false no_counts tt
      Lacks-name tt on-IsLookedUp
