-- ===== src/Lib.antt =====
-- SHARK Turbine: a model of the parts of the repository that carry their own logic, and proofs
-- about them. Paths are from the repository's root.
--
-- Serving (serving/turbine_serving). A batch generation service holds prompts in device memory that
-- is cut into blocks. Serving/Config is llm/config.py. Serving/BlockCache is llm/attn_block_cache.py:
-- the free list of blocks, acquire_attn_blocks and release_attn_blocks. Serving/Session is
-- framework/session.py: WorkQueue is the class of that name with its timeline of fences, Pool is
-- TransferBuffer, TransferBufferPool and AsyncResources on a store in which buffers and pools are
-- numbered, and Modules is ModuleSet. Serving/Generate is llm/impl/service_v1.py: the constructor of
-- GenerateServiceV1, and start, set_sequences, recycle and prefill of a batch. A batch takes its
-- blocks from the cache and its transfer buffers from the pools, and submits its calls to a queue;
-- prefill's views, numpy's conversion of numbers and the invocation are a record of operations
-- (Serving/Generate/Prefill, Backend).
-- An awaited method of the cache does not give up control, so set_sequences is one step; the service
-- is then any sequence of such steps (Serving/Generate/Server).
--
-- Transforms (core/shark_turbine/transforms). Transforms/Merger is merger.py: the class Merger,
-- which moves globals, initializers and functions of one module into another. RenameParameters is
-- general/rename_parameters.py: the pass, and its parser of attributes. What MLIR does for both
-- is a record of operations (Ir), with the laws that a theorem needs as hypotheses. Rewriter is
-- replace_op and erase_unused_op of rewriter.py on the operations that are left.
--
-- Kernel (core/shark_turbine/kernel/_support). Kernel/Context is context.py: push, pop and current
-- on a thread's stacks. Kernel/Regions is regions.py: RegionGraph and SubgraphTracer, with the
-- tracers that are open as a chain, the innermost first, and the lifting of free variables.
--
-- Runtime (core/shark_turbine/runtime). Runtime/OpReg is op_reg. Signature is
-- _define_signature_in_library of base.py with its table of names and its counters, and CustomOp the
-- constructor of that class. Descriptors are AttrArg, IntArg, TensorArg and TensorListArg, Selection
-- is EagerKernelSelection, whose methods declare the arguments of a call and whose spec_key tells
-- one specialization from another, and Builder is FreeFuncKernelBuilder, which makes a function from
-- a selection. Dispatch is compile_standalone_kernel of compiler.py with KERNEL_CACHE, and
-- eager_dispatch of eager.py (Dispatch/Eager): it chooses a device (Runtime/Device, the table of
-- device.py), takes or compiles a kernel, pushes the arguments and unpacks the results. torch's
-- libraries and tensors, MLIR's types and blocks, and the compiler and devices of IREE are records
-- of operations (Torch, Tensors, Mlir, Iree).
--
-- Layers (llm/turbine_llm/layers). Layers/KvCache is kv_cache.py: PagedKVCache, whose slab is a table
-- of pages that is read and written by sub-blocks. A tensor is its dimensions and its elements in
-- row-major order, and what torch does with them is a record of operations with laws
-- (Layers/KvCache/Tensors).
--
-- Data (llm/turbine_llm/data). Data/Theta is the class Theta of base.py: parameters under dotted
-- names, kept as dictionaries in dictionaries (Tree and Entries), with look-up and flattening.
--
-- Models (models/turbine_models). Models/Names and Models/Mappings are the tables of
-- custom_models/remap_gguf.py, and Models/TensorNameMap the constructor of its class.
--
-- Common holds what the parts share: lists and their indices on native numbers, keys and their
-- equality, dictionaries in insertion order, text as code points, decimal numbers, and Python's
-- exceptions as values. A method that changes an object and may raise is a function from the state
-- to a result and the state after, so that what was written before a raise stays written. Tests
-- holds runs of the definitions and each theorem at a concrete input.
--
-- Three kinds of loop of the source have no bound: the rounds of erase_unused_op have fuel for two
-- more than there are operations, which is enough since a round that leaves work has erased one;
-- the search for a free name (uniqueify_name and add_subgraph) has fuel for one more round than
-- there are taken names, which is enough since the candidates differ; a number has fuel for as many
-- digits as its value. All other loops run over lists or counters.
--
-- Not modelled: device memory, modules and calls of the IREE runtime, torch and torch.fx beyond the
-- nodes that a tracer appends, MLIR's parser, printer and bindings, threads and event loops, logging;
-- and the parts of the repository that are mostly calls of these (core/shark_turbine/aot and
-- dynamo, devices and launches of runtime, the emitters of core/shark_turbine/kernel/compiler, the
-- other layers of llm/turbine_llm, the exporters of models/turbine_models). Floating point is nowhere
-- modelled.
pub mod Common
pub mod Serving
pub mod Transforms
pub mod Kernel
pub mod Models
pub mod Runtime
pub mod Layers
pub mod Data
mod Tests
