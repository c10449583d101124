-- ===== src/KernelMemory/Examples.antt =====
-- The theorems on the kernel's memory at concrete pools.
