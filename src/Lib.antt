-- ===== src/Lib.antt =====
-- The Python side of metal_native, a tensor library for Metal GPUs: its dtypes, configuration,
-- optimizers, tensors, layers, conversions, and the wrappers around the extension module `_C`; and the
-- regression benchmarks beside it.
--
-- - Base: Python values. Exec holds exceptions by their class, without messages, and methods as
--   functions from a state to a result and a state, so that what was written before a raise stays
--   written; Dict is a dict in insertion order; Text is an ASCII text by its codes; Int is the
--   integers, over the native numbers.
-- - Dtypes: python/metal_native/dtypes.py. `get_dtype`, `dtype_to_numpy`, `numpy_to_dtype` and the
--   maps that they read. `np.dtype` is a parameter.
-- - Config: python/metal_native/config.py. A section object is its fields with their values in the
--   order of declaration. Config.Env is `from_env`, Config.Dicts is `to_dict` and `from_dict`,
--   Config.Files is `from_json` and `from_yaml`, with the file system and the parsers a parameter,
--   Config.Number is `int` of a text, Config.Global is `get_config` and `set_config`. Floats, and
--   what Python does with an attribute that is no field of the section, are a parameter.
-- - Optim: python/metal_native/optim. Optim.Param is the parameter objects as the steps test their
--   attributes, in a heap by identity, and the loops over groups; Optim.Adam is `MetalAdam` and
--   `MetalAdamW`, Optim.Sgd is `MetalSGD`. Floats and arrays are a parameter, Optim.Numeric, whose
--   array operations never raise: the arrays of a step are taken to have shapes that fit. The state
--   dict of an optimizer has an address, since `state_dict` hands out the dict itself.
-- - Native: python/metal_native/utils.py, device.py and profiling.py. The extension module is a
--   record of actions on a state of its own, the import among them; any of them may raise anything.
-- - Tensor: python/metal_native/tensor.py. A tensor is its handle, the two caches, and its flag
--   `requires_grad`; Tensor.Make is the constructor, Tensor.Reduce is `transpose` and the
--   reductions, Tensor.TorchFunction is the PyTorch protocol. The extension module, NumPy and
--   PyTorch are parameters.
-- - Baselines: benchmarks/baseline_manager.py. The directory of baselines is its entries by name,
--   files and links; `open` follows up to 40 links, as the operating system does, and a longer chain
--   is an error, so that the fuel 41 is that limit and no bound of the model.
--   Baselines.Ideal is the store of labels that the manager should behave like.
-- - Regression: benchmarks/regression_runner.py. The removal of outliers, the comparison with a
--   baseline, and the exit code; Regression.Runner is the benchmarks and their statistics, where the
--   test of a kernel's name is a read of Package, and Regression.Main is `main`, and
--   Regression.MainExit its exit code. Floats, the clock,
--   the statistics and the kernels are a parameter, and so are the baseline manager and the report.
-- - Package: python/metal_native/__init__.py and _metallib.py. The package is its loaded submodules,
--   its bound names, and whether `_C` is there. Package.Binding, Package.Consistent, Package.Reads,
--   Package.Missing, Package.Exported and Package.Ordering are what reads of its names do;
--   Package.Metallib is the search for the shader library, Package.Start is `_initialize`,
--   `_check_installation` and `print_device_info`. Whether the code of a submodule raises
--   ImportError, and the file system, are parameters; how the import of the package went is its
--   Startup.
-- - Reports: benchmarks/report_generator.py, over the comparisons of Regression. A report is its lines
--   with the values that they show, or its entries. Reports.Rows is which comparisons are shown,
--   Reports.Counts the numbers of the summary, Reports.Groups and Reports.Breakdown the categories.
-- - Interop: python/metal_native/interop.py and dlpack_bridge.py, over Tensor: every path of
--   `from_torch` and `to_torch` with its fallback, and the bridge. PyTorch is a parameter.
-- - Accelerate: python/metal_native/accelerate_plugin.py, over Native and Interop: the backend for
--   Accelerate, and what `prepare_model` does with a model's parameters and buffers.
-- - Generation: examples/llm_generation.py, the sampling and the loop that generates text, over any
--   model; Generation.Transformer and Generation.Gpt are the model of the example, and
--   Generation.Text is its vocabulary. NumPy is a parameter, whose arithmetic does not raise.
-- - Layers: python/metal_native/nn, over Tensor; the kernels and NumPy's arithmetic are a parameter.
--
-- Dtypes are what Tensor and the optimizers hold of an array's type; Optim writes a parameter back by
-- making a Tensor, which is an argument of the steps that may raise. All recursion is on lists or
-- numbers: the loops of the source run over lists or ranges, and no other fuel is used.
--
-- Not modelled: messages of exceptions, exceptions that are no `Exception` (an interrupt), texts for
-- display, the other benchmarks and examples, and the C++ and Metal code behind `_C`.
pub mod Base
pub mod Dtypes
pub mod Config
pub mod Optim
pub mod Native
pub mod Tensor
pub mod Baselines
pub mod Regression
pub mod Package
pub mod Reports
pub mod Interop
pub mod Layers
pub mod Accelerate
pub mod Generation
