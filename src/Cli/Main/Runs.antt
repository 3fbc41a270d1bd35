-- ===== src/Cli/Main/Runs.antt =====
-- A run of the program from its options to its end.
use Prim.Native.String.{String}
use argus_core.Base.{List, none, some, ◌≡◌, refl}
use argus_core.Types.{ArgusError, ok}
use argus_core.Sink.Contention.{ContentionEvent}
use argus_core.Cli.{Options, Environment, Analysis, analyze, destination}
use argus_core.Cli.Pipeline.Causes.{Cause}
use argus_core.Cli.Main.{
  Outside, Ending, stopped, argus, Written, events_of, rendered, conclude, main,
}
use argus_core.Cli.Main.Endings.{Concludes}

module _ {F Duration W IoError P Db : Type 0} (outside : Outside F Duration W IoError)
    (env : Environment P Db) (o : Options) where
  -- Nothing is written, and the run is stopped by an error of the analysis that has its cause.
  pub record Fails (c : Written W × Ending IoError) : Type 0 where
    pub error : ArgusError
    pub cause : Cause env o error
    pub nothing : c.0 ≡ record { stdout = ""; stderr = ""; rows = none }
    pub ending : c.1 ≡ stopped (argus error)

  -- There is an analysis, and its report is concluded as the destination promises.
  pub record Succeeds (c : Written W × Ending IoError) : Type 0 where
    pub analysis : Analysis
    pub analyzed : analyze env o ≡ ok analysis
    pub events : List (ContentionEvent F)
    pub listed : events_of outside env.display o analysis ≡ some events
    pub text : String
    pub shown : rendered outside env.display o analysis ≡ some text
    pub concluded : Concludes outside env.display o analysis events text (destination o) c

  pub main-ok :
      (a : Analysis) → analyze env o ≡ ok a → main outside env o ≡ conclude outside env.display o a
  unfolding main
  main-ok a q = rw (main, q) refl
