-- ===== src/Program/Outcomes.antt =====
-- How `main` of exchange_main.cpp ends, by the lines of its input file.
use trading_matching_engine.Base.{
  ℕ, String, Bool, true, false, ◌≡◌, ◌≢◌, refl, ◌∙◌, ap, ap₂, ◌⊎◌, inl, inr, List, [], ◌∷◌, ◌++◌,
  Option, none, some, append_assoc, append-nil, if◌then◌else◌, Bool-cases, sym, subst,
}
use trading_matching_engine.Types.{Symbol}
use trading_matching_engine.Messages.{EngineOrderRequest}
use trading_matching_engine.Csv.{Parsed, skipped, thrown, parsed, parse_line, is_comment}
use trading_matching_engine.Program.{Input, take_line, read_orders, symbols_of, report}
use trading_matching_engine.Program.Collected.{Serves, symbols_of-Serves}
use trading_matching_engine.Program.Main.{
  Outcome, exited, uncaught, reported, terminated, waiting, EngineRun, collected, ended, endless,
  no_input, complaints, choose_output, serve_orders, run_main,
}

abbrev is_thrown : Parsed → Bool
is_thrown thrown = true
is_thrown _ = false

abbrev order_in : Parsed → List EngineOrderRequest
order_in (parsed r) = r ∷ []
order_in _ = []

abbrev complaint : String → Parsed → List String
complaint line skipped = if is_comment line then [] else line ∷ []
complaint line _ = []

-- Whether a line throws; the orders of the lines; the lines that are neither orders nor comments.
unfoldable pub throws : List String → Bool
throws [] = false
throws (line ∷ lines) =
    let rest = throws lines in if is_thrown (parse_line line) then true else rest

unfoldable pub orders_in : List String → List EngineOrderRequest
orders_in [] = []
orders_in (line ∷ lines) = order_in (parse_line line) ++ orders_in lines

unfoldable pub malformed_in : List String → List String
malformed_in [] = []
malformed_in (line ∷ lines) = complaint line (parse_line line) ++ malformed_in lines

-- What is known of a result of the parser.
Parsed-cases :
    (p : Parsed) → (p ≡ thrown) ⊎ (p ≡ skipped) ⊎ ((r : EngineOrderRequest) × (p ≡ parsed r))
Parsed-cases thrown = inl refl
Parsed-cases skipped = inr (inl refl)
Parsed-cases (parsed r) = inr (inr (r, refl))

read_orders_thrown :
    (lines : List String) (i : Input) → throws lines ≡ true → read_orders lines i ≡ none
unfolding read_orders throws take_line
read_orders_thrown [] i h = cc
read_orders_thrown (line ∷ lines) i h = elim (Parsed-cases (parse_line line)) [
  | inl e ↦ rw (read_orders, e)
  | inr (inl e) ↦ rw (read_orders, e) (read_orders_thrown lines _ (rw e at h))
  | inr (inr (r, e)) ↦ rw (read_orders, e) (read_orders_thrown lines _ (rw e at h))
]

-- The input with the orders and the complaints of some lines behind its own.
abbrev and_then : Input → List String → Input
and_then i lines = record {
  orders = i.orders ++ orders_in lines;
  malformed = i.malformed ++ malformed_in lines;
}

read_orders_all :
    (lines : List String) (i : Input)
    → throws lines ≡ false
    → read_orders lines i ≡ some (and_then i lines)
unfolding read_orders throws take_line orders_in malformed_in
read_orders_all [] i h =
    ap₂ (λ os ms. some (record { orders = os; malformed = ms })) (sym (append-nil i.orders))
      (sym (append-nil i.malformed))
read_orders_all (line ∷ lines) i h = elim (Parsed-cases (parse_line line)) [
  | inl e ↦ (let k : true ≡ false = rw e at h in cc)
  | inr (inl e) ↦ elim (Bool-cases (is_comment line)) [
    | inl c ↦ rw (read_orders, e, c) (read_orders_all lines i (rw e at h))
    | inr c ↦
        rw (read_orders, e, c)
          (read_orders_all lines _ (rw e at h)
            ∙ ap (λ ms. some (record { orders = i.orders ++ orders_in lines; malformed = ms }))
                (append_assoc i.malformed (line ∷ []) (malformed_in lines)))
  ]
  | inr (inr (r, e)) ↦
      rw (read_orders, e)
        (read_orders_all lines _ (rw e at h)
          ∙ ap (λ os. some (record { orders = os; malformed = i.malformed ++ malformed_in lines }))
              (append_assoc i.orders (r ∷ []) (orders_in lines)))
]

-- Where the report goes, by the arguments behind the input file, and what is said about it: to the
-- standard output without another argument; to the file that is named, if it opens; and to the
-- standard output with a note, if it does not.
abbrev pub GoesTo : (String → Bool) → List String → Option String × List String → Type 0
GoesTo can_open [] (output, notes) = (output ≡ none) × (notes ≡ [])
GoesTo can_open (file ∷ rest) (output, notes) =
    ((can_open file ≡ true) × (output ≡ some file) × (notes ≡ []))
    ⊎ ((can_open file ≡ false)
        × (output ≡ none)
        × (notes ≡ "could not open output file " ∷ file ∷ ", writing to stdout instead\n" ∷ []))

choose_output-GoesTo :
    (can_open : String → Bool) (rest : List String)
    → GoesTo can_open rest (choose_output can_open rest)
unfolding choose_output
choose_output-GoesTo can_open [] = (refl, refl)
choose_output-GoesTo can_open (file ∷ rest) = elim (Bool-cases (can_open file)) [
  | inl opens ↦ inl (opens, rw opens refl, rw opens refl)
  | inr fails ↦ inr (fails, rw fails refl, rw fails refl)
]

module _ (open_input : String → Option (List String)) (can_open : String → Bool) (show : ℕ → String)
    (engine : List EngineOrderRequest → List Symbol → EngineRun) (name path : String)
    (rest lines : List String) where
  abbrev outcome : Outcome
  outcome = run_main open_input can_open show engine (name ∷ path ∷ rest)

  -- The ends after some orders for some symbols have been given to the engine.
  abbrev pub EndsServed : List EngineOrderRequest → List Symbol → EngineRun → Outcome → Type 0
  EndsServed os symbols (collected rs us) end =
      (output : Option String) × (notes : List String) × GoesTo can_open rest (output, notes)
      × (end
          ≡ reported (complaints (malformed_in lines) ++ notes) output
              (report show os symbols rs us))
  EndsServed os symbols ended end = end ≡ terminated (complaints (malformed_in lines))
  EndsServed os symbols endless end = end ≡ waiting (complaints (malformed_in lines))

  -- The ends after the file has been read.
  abbrev pub EndsRead : List EngineOrderRequest → Outcome → Type 0
  EndsRead os end =
      ((os ≡ [])
        × (end
            ≡ exited 1 (
                complaints (malformed_in lines)
                ++ ("no valid orders found in " ∷ path ∷ "\n" ∷ []))))
      ⊎ ((os ≢ [])
          × (symbols : List Symbol) × Serves os symbols
          × EndsServed os symbols (engine os symbols) end)

  serve_some-EndsServed :
      (o : EngineOrderRequest) (os : List EngineOrderRequest) (run : EngineRun)
      → engine (o ∷ os) (symbols_of (o ∷ os) []) ≡ run
      → EndsServed
          (o ∷ os)
          (symbols_of (o ∷ os) [])
          run
          (serve_orders open_input can_open show engine path rest (malformed_in lines) (o ∷ os))
  unfolding serve_orders
  serve_some-EndsServed o os (collected rs us) e = (
    (choose_output can_open rest).0,
    (choose_output can_open rest).1,
    choose_output-GoesTo can_open rest,
    rw (serve_orders, e) refl,
  )
  serve_some-EndsServed o os ended e = rw (serve_orders, e) refl
  serve_some-EndsServed o os endless e = rw (serve_orders, e) refl

  serve_orders-EndsRead :
      (os : List EngineOrderRequest)
      → EndsRead os (serve_orders open_input can_open show engine path rest (malformed_in lines) os)
  unfolding serve_orders
  serve_orders-EndsRead [] = inl (refl, refl)
  serve_orders-EndsRead (o ∷ os) = inr (
    λ e. cc,
    symbols_of (o ∷ os) [],
    symbols_of-Serves (o ∷ os),
    serve_some-EndsServed o os (engine (o ∷ os) (symbols_of (o ∷ os) [])) refl,
  )

  abbrev pub Ends : Type 0
  Ends =
      ((throws lines ≡ true) × (outcome ≡ uncaught))
      ⊎ ((throws lines ≡ false) × EndsRead (orders_in lines) outcome)

  reads :
      open_input path ≡ some lines
      → throws lines ≡ false
      → outcome
        ≡ serve_orders open_input can_open show engine path rest
            (malformed_in lines)
            (orders_in lines)
  unfolding run_main
  reads opened good = rw (run_main, opened, read_orders_all lines no_input good)

  pub run_main-Ends : open_input path ≡ some lines → Ends
  unfolding run_main
  run_main-Ends opened = elim (Bool-cases (throws lines)) [
    | inl bad ↦ inl (bad, rw (run_main, opened, read_orders_thrown lines no_input bad))
    | inr good ↦ inr (
      good,
      subst (EndsRead (orders_in lines)) (sym (reads opened good))
          (serve_orders-EndsRead (orders_in lines)),
    )
  ]
