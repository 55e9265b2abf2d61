-- ===== src/Routes/Table/Profiles.antt =====
-- pkg/routes/pprof.go: the profiling handlers.
use kubesim.Prelude.{[], ◌∷◌}
use kubesim.Prelude.Exec.{Exec, ◌>>◌}
use kubesim.Platform.{Platform}
use kubesim.Routes.{
  Web, Profile, index_page, command_line, cpu_profile, symbol_table, execution_trace, named,
  serve_profile, call_writer,
}
use kubesim.Routes.Handles.{Handle}
use kubesim.Routes.Table.{Router, register, on_get}

module _ (p : Platform) (w : Web p) where
  abbrev profiler : Profile → Handle w
  profiler profile r = call_writer p (serve_profile profile ∷ [])

  unfoldable pub index : Handle w
  index = profiler index_page

  unfoldable pub cmdline : Handle w
  cmdline = profiler command_line

  unfoldable pub profile : Handle w
  profile = profiler cpu_profile

  unfoldable pub allocs : Handle w
  allocs = profiler cpu_profile

  unfoldable pub symbol : Handle w
  symbol = profiler symbol_table

  unfoldable pub trace : Handle w
  trace = profiler execution_trace

  unfoldable pub heap : Handle w
  heap = profiler (named "heap")

  unfoldable pub goroutine : Handle w
  goroutine = profiler (named "goroutine")

  unfoldable pub block : Handle w
  block = profiler (named "block")

  unfoldable pub threadcreate : Handle w
  threadcreate = profiler (named "threadcreate")

  unfoldable pub mutex : Handle w
  mutex = profiler (named "mutex")

  -- `AddPProf`
  unfoldable pub add_pprof : Exec (Router p w) Unit
  unfolding register
  add_pprof = do
    register p w on_get "/debug/pprof/" index
    register p w on_get "/debug/pprof/cmdline/" cmdline
    register p w on_get "/debug/pprof/profile/" profile
    register p w on_get "/debug/pprof/allocs/" allocs
    register p w on_get "/debug/pprof/symbol/" symbol
    register p w on_get "/debug/pprof/trace/" trace
    register p w on_get "/debug/pprof/heap/" heap
    register p w on_get "/debug/pprof/goroutine/" goroutine
    register p w on_get "/debug/pprof/block/" block
    register p w on_get "/debug/pprof/threadcreate/" threadcreate
    register p w on_get "/debug/pprof/mutex/" mutex
