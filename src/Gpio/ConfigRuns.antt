-- ===== src/Gpio/ConfigRuns.antt =====
-- The runs of the store handlers of drivers/cisco/cisco-fpga-gpio-sysfs.c.
use mathlib.Core.Path.{subst⁻¹}
use cisco_8000_kernel_module.Common.{
  leb, ◌==◌, if◌then◌else◌, Bool-cases, Option-cases, length, ℕ, ◌%◌, ◌^◌, bit_or, ◌≡◌, refl, ◌∙◌,
  ◌⊎◌, inl, inr, ap, ◌&&◌, List, ◌∷◌, arith,
}
use cisco_8000_kernel_module.Env.{
  History, Result, Done, Env, M, pure, ◌>>◌, einval, Result-cases, read, write, ok, err,
}
use cisco_8000_kernel_module.Env.Rules.{changes}
use cisco_8000_kernel_module.Reg.{get, put}
use cisco_8000_kernel_module.Gpio.Regs.{
  cfg_stat, set_reg, clr_reg, mem0, dir, set_out_state, clr_out_state, clr_int_state, dir_input,
  Adapter, gpio_io,
}
use cisco_8000_kernel_module.Gpio.Pins.{gpio_set}
use cisco_8000_kernel_module.Gpio.Tokens.{
  token_index, Kernel, Request, parse_config, parse_set_clear,
}
use cisco_8000_kernel_module.Gpio.Config.{
  clr_int_enb, kind_fits, mem_fits, put_fields, cfg_tokens, mem_tokens, Names, rename, write_config,
  apply_config, config_store, set_store, clear_store,
}
use cisco_8000_kernel_module.Gpio.Changes.{
  Change, Refused, reads_of, carried_out, IsChange, WriteFails, Outcome,
}
use cisco_8000_kernel_module.Gpio.IdentityLaws.{fits-IsIdentified, not_fits}
use cisco_8000_kernel_module.Gpio.ConfigLaws.{
  get-forced_ne, forced, put_fields-TooLarge, put_fields-IsConfigured,
}

clear_word : bit_or (put clr_int_enb 1) (put clr_int_state 1) ≡ 0x22
unfolding put
clear_word = omega arith

-- The writes are made, or one of them fails.
write_config_lem :
    (p : Adapter) (c : Change) (word : ℕ) (env : Env) (h : History)
    → c.written ≡ forced word
    → (write_config p c.pin word env (reads_of p c h) ≡ (ok tt, carried_out p c h))
      ⊎ ((e : ℕ) × (h' : History) × (write_config p c.pin word env (reads_of p c h) ≡ (err e, h'))
          × WriteFails p c env h e h')
unfolding write_config
write_config_lem p c word env h is =
    let h2 : History = reads_of p c h in
    let h1 : History = write p.map (clr_reg c.pin) 0x22 ∷ h2 in
    let w : ℕ = c.written in
    let dirs : get dir w ≡ get dir word =
      ap (get dir) is ∙ get-forced_ne word dir (omega arith) (inl (omega arith)) in
    elim (Bool-cases (get dir word == dir_input)) [
      | inl input ↦ elim (Result-cases (env.write_answer h2 p.map (clr_reg c.pin) 0x22)) [
        | inr (e, bad) ↦
            inr (e, h1, ground (arith, clear_word), inl (ground arith, bad, ground arith))
        | inl (u, good) ↦ elim (Result-cases (env.write_answer h1 p.map (cfg_stat c.pin) w)) [
          | inr (e, bad) ↦
              inr (e, carried_out p c h, ground (arith, clear_word), inr (ground arith, refl))
          | inl (u', good') ↦ inl (ground (arith, clear_word))
        ]
      ]
      | inr output ↦ elim (Result-cases (env.write_answer h2 p.map (cfg_stat c.pin) w)) [
        | inr (e, bad) ↦ inr (e, carried_out p c h, ground arith, inr (ground arith, refl))
        | inl (u, good) ↦ inl (ground arith)
      ]
    ]

module _ (k : Kernel) (p : Adapter) (names : Names) (r : Request) (n : ℕ) (env : Env)
    (h : History) where
  abbrev result : Result (ℕ × Names)
  result = ok (n, rename k r (r.value token_index % 2 ^ 32) names)

  refused :
      (run : M (ℕ × Names)) (e : ℕ) (h' : History)
      → Refused p r env h e
      → run env h ≡ (err e, h')
      → changes h' ≡ changes h
      → Outcome k p names r n env h (run env h)
  refused run e h' why step quiet =
      subst⁻¹ (Outcome k p names r n env h) step (inl (e, why, refl, quiet))

  -- The run once the registers are read and the word is made.
  write-Outcome :
      (run : M (ℕ × Names)) (pin cfg mem word : ℕ)
      → let h2 : History = read p.map (mem0 pin) ∷ read p.map (cfg_stat pin) ∷ h in
        IsChange p r env h
          (record { request = r; pin = pin; cfg = cfg; mem = mem; written = forced word })
        → run env h
          ≡ (write_config p pin word >> pure (n, rename k r (r.value token_index % 2 ^ 32) names))
              env h2
        → Outcome k p names r n env h (run env h)
  write-Outcome run pin cfg mem word valid step =
      let h2 : History = read p.map (mem0 pin) ∷ read p.map (cfg_stat pin) ∷ h in
      let c : Change = record {
        request = r;
        pin = pin;
        cfg = cfg;
        mem = mem;
        written = forced word;
      } in
      elim (write_config_lem p c word env h refl) [
        | inl good ↦
            let done : run env h ≡ (result, carried_out p c h) = step ∙ ground arith in
            subst⁻¹ (Outcome k p names r n env h) done (inr (inr (c, valid, refl, refl)))
        | inr (e, h', bad, why) ↦
            let done : run env h ≡ (err e, h') = step ∙ ground arith in
            subst⁻¹ (Outcome k p names r n env h) done (inr (inl (e, c, valid, refl, why)))
      ]

  -- `config_store` after its first loop.
  apply_config-Outcome : Outcome k p names r n env h (apply_config k p names r n env h)
  unfolding apply_config
  apply_config-Outcome =
      let run : M (ℕ × Names) = apply_config k p names r n in
      let index : ℕ = r.value token_index % 2 ^ 32 in
      elim (Bool-cases (r.seen token_index)) [
        | inr unseen ↦ refused run einval h (inl (unseen, refl)) (ground arith) refl
        | inl seen ↦ elim (Bool-cases (leb p.ngpio index)) [
          | inl beyond ↦ refused run einval h (inr (inl (ground arith, refl))) (ground arith) refl
          | inr within ↦ elim (Result-cases (gpio_io p index)) [
            | inr (e, bad) ↦ refused run e h (inr (inr (inl bad))) (ground arith) refl
            | inl (pin, good) ↦
                let c : ℕ = cfg_stat pin in
                let h1 : History = read p.map c ∷ h in
                let h2 : History = read p.map (mem0 pin) ∷ h1 in
                elim (Result-cases (env.read_answer h p.map c)) [
                  | inr (e, bad) ↦
                      refused run e h1 (inr (inr (inr (pin, good, inl bad)))) (ground arith) refl
                  | inl (cfg, held) ↦ elim (Result-cases (env.read_answer h1 p.map (mem0 pin))) [
                    | inr (e, bad) ↦
                        refused run e h2 (inr (inr (inr (pin, good, inr (inl bad))))) (ground arith)
                          refl
                    | inl (mem, known) ↦
                        elim (Bool-cases (kind_fits r mem && mem_fits r mem_tokens mem)) [
                          | inr other ↦
                              refused run einval h2
                                (inr (
                                  inr (
                                    inr (
                                      pin,
                                      good,
                                      inr (inr (inl (mem, known, not_fits r mem other, refl))),
                                    ))))
                                (ground arith) refl
                          | inl same ↦ elim (Option-cases (put_fields r cfg_tokens cfg)) [
                            | inl range ↦
                                refused run einval h2
                                  (inr (
                                    inr (
                                      inr (
                                        pin,
                                        good,
                                        inr (inr (inr (put_fields-TooLarge r cfg range, refl))),
                                      ))))
                                  (ground arith) refl
                            | inr (word, made) ↦
                                write-Outcome run pin cfg mem word
                                  (record {
                                    asked_for = refl;
                                    has_index = seen;
                                    has_pin = good;
                                    held = held;
                                    known = known;
                                    identified = fits-IsIdentified r mem same;
                                    configured = put_fields-IsConfigured r cfg word made;
                                  })
                                  (ground arith)
                          ]
                        ]
                  ]
                ]
          ]
        ]
      ]

-- A store in "config" is refused with the status of the text; or the text is a request and one of three
-- things happens. The run is refused without a change to any register, with -EINVAL because it names no
-- line or one beyond the chip's, its identity is not the line's or a value is too large for its field,
-- or with the status of the line's look-up or of a read. Or the line is one of the
-- chip's; `mem[0]` holds each part of a group's or a pin's identity that the request gives, and says
-- that the line is a group or a pin as the parts given require; and in the word that is written every
-- field that the request names has its value and every other one is as it was read, but for the output
-- of an input, which is off. Then for an input its interrupt is cleared first, and the run is carried
-- out; or the first of these writes that fails ends it with its status.
pub config_store-Outcome :
    (k : Kernel) (p : Adapter) (names : Names) (buf : List ℕ) (env : Env) (h : History)
    → ((e : ℕ) × (parse_config k buf ≡ err e) × (config_store k p names buf env h ≡ (err e, h)))
      ⊎ ((r : Request) × (parse_config k buf ≡ ok r)
          × Outcome k p names r (length buf) env h (config_store k p names buf env h))
unfolding config_store
config_store-Outcome k p names buf env h = elim (Result-cases (parse_config k buf)) [
  | inr (e, bad) ↦ inl (e, bad, ground arith)
  | inl (r, good) ↦
      let step : config_store k p names buf env h ≡ apply_config k p names r (length buf) env h =
        ground arith in
      inr (
        r,
        good,
        subst⁻¹ (Outcome k p names r (length buf) env h) step
            (apply_config-Outcome k p names r (length buf) env h),
      )
]

-- A status, with the length in place of 0.
abbrev pub length_of : ℕ → Done → Result ℕ
length_of n (ok u) = ok n
length_of n (err e) = err e

-- "set" and "clear" on a line of the chip, once its register is read as `v`: for an input they are
-- refused and write nothing; for an output they make the same request as the callback `_gpio_set`
-- with 1 or 0, and unlike it they report its status.
pub set_store-gpio_set :
    (k : Kernel) (p : Adapter) (buf : List ℕ) (index pin v : ℕ) (env : Env) (h : History)
    → parse_set_clear k p.ngpio buf ≡ ok index
    → gpio_io p index ≡ ok pin
    → env.read_answer h p.map (cfg_stat pin) ≡ ok v
    → let h1 : History = read p.map (cfg_stat pin) ∷ h in
      let n : ℕ = length buf in
      (set_store k p buf env h ≡ (
        if get dir v == dir_input then (err einval, h1) else (
          length_of n (env.write_answer h1 p.map (set_reg pin) (put set_out_state 1)),
          (gpio_set p index 1 env h1).1,
        )))
      × (clear_store k p buf env h ≡ (
          if get dir v == dir_input then (err einval, h1) else (
            length_of n (env.write_answer h1 p.map (clr_reg pin) (put clr_out_state 1)),
            (gpio_set p index 0 env h1).1,
          )))
unfolding set_store clear_store gpio_set
set_store-gpio_set k p buf index pin v env h e io held =
    let h1 : History = read p.map (cfg_stat pin) ∷ h in
    (
      (elim (Result-cases (env.write_answer h1 p.map (set_reg pin) (put set_out_state 1))) [
        | inl (u, good) ↦ ground arith
        | inr (x, bad) ↦ ground arith
      ]),
      (elim (Result-cases (env.write_answer h1 p.map (clr_reg pin) (put clr_out_state 1))) [
        | inl (u, good) ↦ ground arith
        | inr (x, bad) ↦ ground arith
      ]),
    )
