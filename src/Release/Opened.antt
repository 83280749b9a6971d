-- ===== src/Release/Opened.antt =====
-- What a stream that CompileStream has opened keeps to, whatever is done with it.
use guardy.Base.{
  ℕ, ltb, leb, Bool, true, ◌&&◌, ◌||◌, ◌≡◌, inr, inl, refl, arith, List, Option, none, some,
  Bool-cases, Option-cases,
}
use guardy.Fault.Tree.{Error}
use guardy.Release.{Encoding, ReleaseProfile, StreamConfig, is_whole_response}
use guardy.Release.Bounds.{Counted}
use guardy.Release.Reach.{Op, apply_ops, apply_ops-Counted}
use guardy.Release.Whole.{Withheld, apply_ops-Withheld}
use guardy.Release.Compile.{
  StreamCapabilities, CompiledStream, opened, unfit, compile_stream, check_stream_capabilities,
  incomplete, opening, after_capabilities, after_policy, is_best_effort, is_units, utf_max,
}

module _ {W : Type 0} (encoding : Encoding) (ctx_err : W → Option Error) where
  -- After any operations the counts are in order, and of a whole response nothing is sent before the end.
  abbrev pub Kept : CompiledStream W → Type 0
  Kept (unfit e) = Unit
  Kept (opened cfg s) =
      (ops : List Op)
      → Counted cfg (apply_ops encoding ctx_err cfg ops s)
        × (is_whole_response cfg.profile ≡ true → Withheld (apply_ops encoding ctx_err cfg ops s))

  opening-Kept : (cfg : StreamConfig W) (w : W) → Kept (opened cfg (opening cfg w))
  opening-Kept cfg w ops =
      let start : Counted cfg (opening cfg w) = record {
        received_within = omega arith;
        released_within = omega arith;
        released_sent = refl;
      } in
      (
        apply_ops-Counted encoding ctx_err cfg ops (opening cfg w) start,
        λ e. apply_ops-Withheld encoding ctx_err cfg ops (opening cfg w) e (inr refl),
      )

  policy-Kept : (cfg : StreamConfig W) (w : W) (e : Option Error) → Kept (after_policy cfg w e)
  policy-Kept cfg w none = opening-Kept cfg w
  policy-Kept cfg w (some e) = tt

  capabilities-Kept :
      (cfg : StreamConfig W) (w : W) (e c : Option Error) → Kept (after_capabilities cfg w e c)
  capabilities-Kept cfg w e none = policy-Kept cfg w e
  capabilities-Kept cfg w e (some c) = tt

  -- Whatever is written, completed and aborted on a stream that was opened, and whatever its guard and
  -- its transport do: the bytes received are within the input limit, those released within the output
  -- limit and as many as the transport took, and of a whole response nothing is sent before the end.
  pub compile_stream-Kept :
      (absent : Bool) (timeout : ℕ) (profile : Option ReleaseProfile)
      (rules : List (Option StreamCapabilities)) (policy_error : Option Error)
      (cfg : StreamConfig W) (w : W)
      → Kept (compile_stream absent timeout profile rules policy_error cfg w)
  unfolding compile_stream
  compile_stream-Kept absent timeout profile rules policy_error cfg w =
      elim (Bool-cases (incomplete absent timeout cfg)) [
        | inl i ↦ rw i tt
        | inr i ↦ elim (Option-cases profile) [
          | inl q ↦ rw (i, q) tt
          | inr (p, q) ↦
              elim (Bool-cases
                (is_best_effort p && (cfg.json_values || ltb cfg.max_unit_bytes utf_max))) [
                  | inl b ↦ rw (i, q, b) tt
                  | inr b ↦
                      elim (Bool-cases (
                        is_units p
                        && cfg.json_values
                        && leb cfg.max_pending_bytes cfg.max_unit_bytes)) [
                          | inl u ↦ rw (i, q, b, u) tt
                          | inr u ↦
                              rw (i, q, b, u)
                                (capabilities-Kept (record cfg { profile = p }) w policy_error
                                  (check_stream_capabilities p rules))
                        ]
                ]
        ]
      ]
