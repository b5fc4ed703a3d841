-- ===== src/Syscall.antt =====
-- kernel/syscall/syscall.c: the call itself is a parameter.
use ucas_os_kernel.Base.{ℕ, ◌+◌, ◌%◌, upd}
use ucas_os_kernel.Mm.Pgtable.{word}
use ucas_os_kernel.Mm.State.{Mem}
use ucas_os_kernel.Process.{reg_at, sepc_at}

-- What an entry of `syscall` does with its arguments and the memory.
abbrev pub Syscall : Type 0
Syscall = (arg0 arg1 arg2 arg3 arg4 : ℕ) → Mem → ℕ × Mem

unfoldable pub handle_syscall : (syscall : ℕ → Syscall) → Mem → (regs : ℕ) → Mem
handle_syscall syscall mem regs =
    let syscall_number = mem (reg_at regs 17) in
    let arg0 = mem (reg_at regs 10) in
    let arg1 = mem (reg_at regs 11) in
    let arg2 = mem (reg_at regs 12) in
    let arg3 = mem (reg_at regs 13) in
    let arg4 = mem (reg_at regs 14) in
    let r : ℕ × Mem = syscall syscall_number arg0 arg1 arg2 arg3 arg4 mem in
    let mem1 = upd r.1 (reg_at regs 10) r.0 in
    upd mem1 (sepc_at regs) ((mem1 (sepc_at regs) + 4) % word)
