-- ===== src/Call/Valid/Init.antt =====
-- A call is valid from the start (`sm_call_init` of `src/call/sm_call.c`).
use v34_working.Base.{◌≡◌, refl, Bool, ◌||◌, Option, none, some, ltb, arith, if-Has}
use v34_working.Serial.Queue.Fifo
use v34_working.Serial.Deframer.Bounds
use v34_working.Call.{Settings, v22, answer_tone, handshake, v8, Call}
use v34_working.Call.Engines.{Engines}
use v34_working.Call.Init.{
  begin_answer, begin_v8, begin_plain, begin_bm, new_bm, blank, sm_call_init,
}
use v34_working.Call.Valid.{IsValid, with_phase}

module _ {X G : Type 0} where
  -- Before the first phase, also the mode is V.22bis.
  abbrev IsFresh : Call X G → Type 0
  IsFresh c = IsValid c × (c.mode ≡ v22)

  begin_answer-IsValid : (c : Call X G) → IsFresh c → IsValid (begin_answer c)
  unfolding begin_answer
  begin_answer-IsValid c f =
      if-Has IsValid (ltb 0 c.cfg.answer_tone_ms || ltb 0 c.cfg.pre_tone_silence_ms) _ _
        (λ _. with_phase answer_tone c refl f.0) (λ _. with_phase handshake c refl f.0)

  in_v8 : (c : Call X G) → IsFresh c → IsValid (record c { phase = v8 })
  in_v8 c (v, m) = record {
    powered = v.powered;
    early = λ _. m;
    alone = v.alone;
    staged = v.staged;
    started = v.started;
    owned = v.owned;
    queue = v.queue;
    unframed = v.unframed;
  }

  begin_v8-IsValid : (o : Option X) (c : Call X G) → IsFresh c → IsValid (begin_v8 o c)
  unfolding begin_v8
  begin_v8-IsValid (some x) c f = in_v8 c f
  begin_v8-IsValid none c f = begin_answer-IsValid c f

module _ {X G : Type 0} (e : Engines X) where
  blank-IsFresh :
      (cfg : Settings) (captured : Bool) → IsFresh {X = X} {G = G} (blank e cfg captured)
  unfolding blank
  blank-IsFresh cfg captured = (
    record {
      powered = λ q. absurd (ground arith);
      early = λ q. refl;
      alone = refl;
      staged = omega arith;
      started = λ q. absurd (ground arith);
      owned = refl;
      queue = Fifo.init-IsValid;
      unframed = Bounds.init-IsValid;
    },
    refl,
  )

  begin_plain-IsValid : (c : Call X G) → IsFresh c → IsValid (begin_plain e c)
  unfolding begin_plain
  begin_plain-IsValid c f =
      if-Has IsValid c.cfg.use_v8 (begin_v8 (e.v8_create c.cfg.use_v34) c) (begin_answer c)
        (λ _. begin_v8-IsValid (e.v8_create c.cfg.use_v34) c f) (λ _. begin_answer-IsValid c f)

  begin_bm-IsValid : (o : Option X) (c : Call X G) → IsFresh c → IsValid (begin_bm e o c)
  unfolding begin_bm
  begin_bm-IsValid (some b) c f = in_v8 c f
  begin_bm-IsValid none c f = begin_plain-IsValid c f

  pub sm_call_init-IsValid :
      (cfg : Settings) (captured : Bool) → IsValid {X = X} {G = G} (sm_call_init e cfg captured)
  unfolding sm_call_init
  sm_call_init-IsValid cfg captured =
      let c : Call X G = blank e cfg captured in
      let f = blank-IsFresh cfg captured in
      if-Has (IsValid {X = X} {G = G}) cfg.use_binmodem (begin_bm e (new_bm e cfg) c)
        (begin_plain e c) (λ _. begin_bm-IsValid (new_bm e cfg) c f) (λ _. begin_plain-IsValid c f)
