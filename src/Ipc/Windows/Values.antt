-- ===== src/Ipc/Windows/Values.antt =====
-- What the options of a listener of named pipes give back.
use mangos_v.Prelude.{◌≡◌, ◌≢◌, refl, ap, ℕ, arith}
use mangos_v.Errors.{ok}
use mangos_v.Options.{OptionName, Value}
use mangos_v.Ipc.Windows.{PipeConfig, get_option, set_option, get_unnamed, set_unnamed}

set_unnamed-same :
    (n : ℕ) (v : Value) (c c' : PipeConfig) → set_unnamed n v c ≡ ok c' → get_unnamed n c' ≡ ok v
set_unnamed-same n (Value.int32 i) c c' e = ground (arith, e)
set_unnamed-same n (Value.string s) c c' e = ground (arith, e)
set_unnamed-same n v c c' e = absurd (ground (arith, e))

set_unnamed-others :
    (n m : ℕ) (v : Value) (c c' : PipeConfig)
    → set_unnamed n v c ≡ ok c'
    → m ≢ n
    → get_unnamed m c' ≡ get_unnamed m c
set_unnamed-others n m (Value.int32 i) c c' e differs = ground (arith, e)
set_unnamed-others n m (Value.string s) c c' e differs = ground (arith, e)
set_unnamed-others n m v c c' e differs = absurd (ground (arith, e))

others :
    (n : ℕ) (other : OptionName) (v : Value) (c c' : PipeConfig)
    → set_unnamed n v c ≡ ok c'
    → other ≢ OptionName.unnamed n
    → get_option other c' ≡ get_option other c
unfolding get_option
others n (OptionName.unnamed m) v c c' e differs =
    set_unnamed-others n m v c c' e (λ same. differs (ap OptionName.unnamed same))
others n other v c c' e differs = refl

-- An option that `SetOption` takes is what `GetOption` gives for its name, and the others are as before.
pub get_option-set_option :
    (name : OptionName) (v : Value) (c c' : PipeConfig)
    → set_option name v c ≡ ok c'
    → (get_option name c' ≡ ok v)
      × ((other : OptionName) → other ≢ name → get_option other c' ≡ get_option other c)
unfolding set_option get_option
get_option-set_option (OptionName.unnamed n) v c c' e =
    (set_unnamed-same n v c c' e, λ other differs. others n other v c c' e differs)
get_option-set_option name v c c' e = cc
