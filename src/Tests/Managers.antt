-- ===== src/Tests/Managers.antt =====
-- The theorems on the managers and the threads at concrete inputs.
use server.Prelude.{
  ℕ, ◌≡◌, refl, false, [], ◌∷◌, some, ok, blocks, fault, arith, replicate, get_elem?,
}
use server.Prelude.Table.{find, insert}
use server.WorkerMgr.{init_worker, use_worker, init_from}
use server.Service.{make_service}
use server.Server.{Server, get_free_service_id, new_service, query_service, close_all}
use server.Server.Creates.{Creates, new_service-Creates}
use server.Server.Query.{FirstNamed, query_service_lem}
use server.Server.Shutdown.{close_all-cases}
use server.Server.History.{
  Call, create_call, destory_call, poll_call, send_call, run, call, Returns, run-IsSound,
}
use server.Server.Boot.{boot, boot-run}
use server.Threads.{at_top, fetched, holding, turn, System, work, manage, Reach, booted, next}
use server.Threads.Tokens.{count}
use server.Threads.Exclusive.{Reach-exclusive}
use server.Threads.Dangling.{destory-dangles}
use server.Tests.Data.{host, echo_server, echo_server-IsSound, ping}

abbrev create : Call
create = create_call "echo" "echo.lua" "" false

boot-run_example : run host (create ∷ destory_call 1 ∷ poll_call ∷ create ∷ []) (boot 1 []) ≡ blocks
boot-run_example =
    (boot-run host 1 [] (create ∷ destory_call 1 ∷ poll_call ∷ create ∷ []) (omega arith)).1
      (omega arith)

run-IsSound_example :
    Returns host (create ∷ send_call 1 ping ∷ destory_call 1 ∷ poll_call ∷ []) echo_server
run-IsSound_example =
    (run-IsSound host (create ∷ send_call 1 ping ∷ destory_call 1 ∷ poll_call ∷ []) echo_server
        echo_server-IsSound).0
      (omega arith)

new_service-Creates_example :
    Creates false echo_server 2 (new_service host "b" "b.lua" "" false echo_server)
new_service-Creates_example =
    new_service-Creates host "b" "b.lua" "" false echo_server echo_server-IsSound

query_service_lem_example :
    (id : ℕ) × (query_service "echo" echo_server ≡ ok (id, echo_server))
    × FirstNamed "echo" echo_server.heap echo_server.mgr.services id
query_service_lem_example = query_service_lem "echo" echo_server echo_server-IsSound

close_all-cases_example : (t : Server) × (close_all echo_server ≡ ok (tt, t))
close_all-cases_example = (close_all-cases echo_server echo_server-IsSound).2 refl (omega arith)

destory-dangles_example :
    (t : Server) × (run host (destory_call 1 ∷ poll_call ∷ []) echo_server ≡ ok (tt, t))
    × ((i service_id : ℕ) → turn host i (holding 1 service_id) t ≡ fault)
unfolding find
destory-dangles_example = destory-dangles host 1 1 echo_server echo_server-IsSound refl

-- One shared service, and the thread of worker 1 has its number.
fetching : (s : System) × Reach host 2 [] s × (get_elem? s.pcs 0 ≡ some (fetched 1))
unfolding boot call new_service make_service replicate turn get_free_service_id init_worker
    use_worker init_from insert
fetching =
    (_, next (next booted (manage create _ tt refl)) (work 0 at_top (fetched 1) _ refl refl), refl)

Reach-exclusive_example :
    (get_elem? fetching.0.pcs 1 ≡ some (fetched 1) → ◌≡◌ {A = ℕ} 1 1 → ◌≡◌ {A = ℕ} 0 1)
    × (count 1 fetching.0.server.mgr.free_services ≡ 0)
Reach-exclusive_example =
    Reach-exclusive host 2 [] fetching.0 0 1 (fetched 1) (fetched 1) (omega arith) fetching.1
      fetching.2 (omega arith)
