-- ===== src/Engine/Instances/Times.antt =====
-- pkg/engine/resolve/component_instance.go: UpdateTimes over several uses of an instance.
use aptomi.Base.{ℕ, ◌≡◌, arith}
use aptomi.Engine.Instances.{ComponentInstance, update_times}

-- Two calls of UpdateTimes have the same effect in either order.
pub update_times_comm :
    (a b c d : ℕ) (i : ComponentInstance)
    → update_times a b (update_times c d i) ≡ update_times c d (update_times a b i)
unfolding update_times
update_times_comm a b c d i = ground arith
